-- ===== src/Agent/Tools.antt =====
-- memgraphrag/agent/tools.py: the tools of the agent. The engine, the reading of JSON, lower case and
-- white space are parameters.
use exeio_memgraphrag.Base.{
  ℕ, ℤ, pos, negsuc, zero, suc, ◌+◌, List, [], ◌∷◌, ◌++◌, Bool, true, false, if◌then◌else◌, ltb,
  ◌==◌, length, Option, none, some, ite, max, min,
}
use exeio_memgraphrag.Text.Defs.{Text, Text-discrete, codes, strip, lstrip, rstrip}
use exeio_memgraphrag.Text.Find.{has_text}
use exeio_memgraphrag.Pipeline.Index.{Attempt, done, failure}
use exeio_memgraphrag.Agent.Fence.{fence_from, newline}
use exeio_memgraphrag.Agent.References.{
  Arguments, TopK, not_given, refused, infinite, number, Backend, QueryParam, QuerySolution,
  ToolBox, ToolResult, build_references, ppr,
}

abbrev pub max_tool_top_k : ℕ
max_tool_top_k = 30

unfoldable pub clamp_top_k : ℤ → ℤ
clamp_top_k (negsuc _) = pos 1
clamp_top_k (pos n) = pos (max 1 (min max_tool_top_k n))

-- what `int` raises at an infinite float; `_derive_param` does not catch it
abbrev pub overflow_error : Text
overflow_error = codes "OverflowError"

-- `top_k` of the arguments, or that of the request
unfoldable pub chosen_top_k : TopK → ℤ → Attempt ℤ
unfolding clamp_top_k
chosen_top_k (number k) base = done (clamp_top_k k)
chosen_top_k refused base = done base
chosen_top_k not_given base = done base
chosen_top_k infinite base = failure overflow_error

-- `replace(base, …)`, where the size was not refused with an exception
unfoldable pub replace_param : QueryParam → Attempt ℤ → Attempt QueryParam
replace_param base (failure message) = failure message
replace_param base (done k) =
    done (record base { mode = ppr; top_k = k; stream = false; conversation_history = [] })

unfoldable pub derive_param : QueryParam → Arguments → Attempt QueryParam
unfolding chosen_top_k replace_param
derive_param base arguments = replace_param base (chosen_top_k arguments.top_k base.top_k)

-- Names in order, each once.
unfoldable pub text_less : Text → Text → Bool
text_less [] [] = false
text_less [] (d ∷ t) = true
text_less (c ∷ s) [] = false
text_less (c ∷ s) (d ∷ t) = if c == d then text_less s t else ltb c d

unfoldable pub insert_name : Text → List Text → List Text
unfolding text_less
insert_name name [] = name ∷ []
insert_name name (n ∷ names) =
    let rest = insert_name name names in
    if text_less name n then name ∷ n ∷ names else if text_less n name then n ∷ rest else n ∷ names

-- `sorted(set(names))`
unfoldable pub sorted_names : List Text → List Text
unfolding insert_name
sorted_names [] = []
sorted_names (n ∷ names) = insert_name n (sorted_names names)

-- `"\n".join` of the names, each behind a dash, of at most as many as the first argument says
unfoldable pub listing : ℕ → List Text → Text
listing zero names = []
listing (suc n) [] = []
listing (suc n) (name ∷ names) = newline ∷ codes "- " ++ name ++ listing n names

abbrev pub tool_failure : Text → Text → ToolResult
tool_failure text error = record { text = text; error = some error }

abbrev pub tool_answer : Text → ToolResult
tool_answer text = record { text = text; error = none }

module _ (backend : Backend) where
  open backend use {is_space, lower, repr, json_object, aretrieve, doc_status_all, base}

  unfoldable pub parse_arguments : Text → Option Arguments
  unfolding lstrip rstrip
  parse_arguments raw = elim (strip is_space raw) [
    | [] ↦ some (record { query = []; top_k = not_given; term = [] })
    | c ∷ text ↦ json_object (c ∷ text)
  ]

  -- The passages of a solution go behind those that the box has.
  unfoldable pub accept : QuerySolution → ToolBox → ToolResult × ToolBox
  unfolding build_references fence_from
  accept s box = (
    tool_answer (fence_from box.fence_start s.docs s.sources),
    record {
      fence_start = box.fence_start + length s.docs;
      references = box.references ++ build_references is_space box.fence_start s;
      docs = box.docs ++ s.docs;
      sources = box.sources ++ s.sources;
    },
  )

  abbrev pub no_passage : ToolResult
  no_passage = tool_answer (codes "No passage in the corpus matched that query.")

  unfoldable pub accept_found : List Text → QuerySolution → ToolBox → ToolResult × ToolBox
  unfolding accept
  accept_found [] s box = (no_passage, box)
  accept_found (d ∷ docs) s box = accept s box

  -- The first of the solutions, if it has passages.
  unfoldable pub take_solution : List QuerySolution → ToolBox → ToolResult × ToolBox
  unfolding accept_found
  take_solution [] box = (no_passage, box)
  take_solution (s ∷ solutions) box = accept_found s.docs s box

  unfoldable pub read_solutions : Attempt (List QuerySolution) → ToolBox → ToolResult × ToolBox
  unfolding take_solution
  read_solutions (failure message) box = (
    tool_failure (codes "Tool call failed: retrieval error (" ++ message ++ codes ").")
        (codes "tool-error"),
    box,
  )
  read_solutions (done solutions) box = take_solution solutions box

  -- An exception of `_derive_param` is outside the `try`.
  unfoldable pub retrieve_with :
      Text → Attempt QueryParam → ToolBox → Attempt (ToolResult × ToolBox)
  unfolding read_solutions
  retrieve_with query (failure message) box = failure message
  retrieve_with query (done param) box = done (read_solutions (aretrieve query param) box)

  -- `_retrieve`, from its query without the white space around it.
  unfoldable pub retrieve_query : Text → Arguments → ToolBox → Attempt (ToolResult × ToolBox)
  unfolding retrieve_with derive_param
  retrieve_query [] arguments box = done (
    tool_failure (codes "Tool call failed: 'query' is required and must be a non-empty string.")
        (codes "bad-arguments"),
    box,
  )
  retrieve_query (c ∷ query) arguments box =
      retrieve_with (c ∷ query) (derive_param base arguments) box

  unfoldable pub retrieve : Arguments → ToolBox → Attempt (ToolResult × ToolBox)
  unfolding retrieve_query lstrip rstrip
  retrieve arguments box = retrieve_query (strip is_space arguments.query) arguments box

  -- The paths that are not empty and have the term in them.
  unfoldable pub matching_names : Text → List Text → List Text
  unfolding has_text
  matching_names term [] = []
  matching_names term ([] ∷ paths) = matching_names term paths
  matching_names term ((c ∷ path) ∷ paths) =
      let rest = matching_names term paths in
      if has_text term (lower (c ∷ path)) then (c ∷ path) ∷ rest else rest

  unfoldable pub search_documents : Arguments → ToolResult
  unfolding matching_names sorted_names listing lstrip rstrip
  search_documents arguments = elim doc_status_all [
    | failure message ↦
        tool_failure (codes "Tool call failed: document listing error (" ++ message ++ codes ").")
          (codes "tool-error")
    | done paths ↦ elim (matching_names (lower (strip is_space arguments.term)) paths) [
      | [] ↦ tool_answer (codes "No ingested document matched that term.")
      | n ∷ names ↦
          tool_answer (codes "Ingested documents:" ++ listing 50 (sorted_names (n ∷ names)))
    ]
  ]

  -- A tool that leaves the box as it is.
  unfoldable pub other_tool : Text → Arguments → ToolResult
  unfolding search_documents
  other_tool name arguments =
      ite (Text-discrete name (codes "search_documents")) (search_documents arguments) (
        tool_failure (codes "Tool call failed: no tool named " ++ repr name ++ codes ".")
          (codes "unknown-tool"))

  unfoldable pub dispatch : Text → Arguments → ToolBox → Attempt (ToolResult × ToolBox)
  unfolding retrieve other_tool
  dispatch name arguments box =
      ite (Text-discrete name (codes "retrieve")) (retrieve arguments box)
        (done (other_tool name arguments, box))

  unfoldable pub run_parsed : Option Arguments → Text → ToolBox → Attempt (ToolResult × ToolBox)
  unfolding dispatch
  run_parsed (some arguments) name box = dispatch name arguments box
  run_parsed none name box = done (
    tool_failure
        (codes "Tool call failed: the arguments were not valid JSON. "
          ++ codes "Re-issue the call with a well-formed JSON object.")
        (codes "bad-arguments"),
    box,
  )

  -- `ToolBox.run`: what it raises, and else its result and the box behind it
  unfoldable pub run_tool : Text → Text → ToolBox → Attempt (ToolResult × ToolBox)
  unfolding parse_arguments run_parsed
  run_tool name raw_arguments box = run_parsed (parse_arguments raw_arguments) name box
