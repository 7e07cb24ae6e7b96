-- ===== src/Agent/RunTests.antt =====
-- A run of the agent with a model that searches, repeats itself, and answers.
use exeio_memgraphrag.Base.{
  ℕ, pos, ◌==◌, [], ◌∷◌, ◌++◌, Bool, true, false, if◌then◌else◌, not, leb, length, none, some, ◌≡◌,
  refl, ℕ_discrete, map,
}
use exeio_memgraphrag.Text.Defs.{Text-discrete, codes, lstrip, rstrip}
use exeio_memgraphrag.Text.Find.{has_text, concat}
use exeio_memgraphrag.Pipeline.Index.{Attempt, done, failure}
use exeio_memgraphrag.Chunker.TokenSize.{split_from}
use exeio_memgraphrag.Agent.Budget.{Call, text}
use exeio_memgraphrag.Agent.Harmony.{new_filter, stream}
use exeio_memgraphrag.Agent.Fence.{
  passage_fence_open, passage_fence_close, digits, replace_from, neutralize_fences, fence_header,
  fence_block, fence_blocks, join_blocks, fence_passages, fence_from, newline,
}
use exeio_memgraphrag.Agent.Tools.{
  clamp_top_k, chosen_top_k, replace_param, derive_param, overflow_error, retrieve_with, accept,
  accept_found, take_solution, read_solutions, retrieve_query, retrieve, dispatch, run_parsed,
  run_tool, parse_arguments,
}
use exeio_memgraphrag.Agent.References.{
  QuerySolution, QueryParam, Arguments, number, infinite, ToolBox, ToolResult, new_toolbox, Backend,
  other_mode, references_from, build_references,
}
use exeio_memgraphrag.Agent.Loop.{run_agent, starting, visible_tokens}
use exeio_memgraphrag.Agent.Session.{Setting}
use exeio_memgraphrag.Agent.Framed.{IsAnswered, run_agent-IsAnswered, concat-visible_tokens}
use exeio_memgraphrag.Agent.Fenced.{neutralize_fences-has_text}
use exeio_memgraphrag.Agent.Numbered.{IsDerived, sized, derive_param-bounds}

abbrev is_space_char : ℕ → Bool
is_space_char c = c == 32

abbrev solution : QuerySolution
solution = record {
  docs = codes "A" ∷ codes "B" ∷ [];
  sources = codes "a.pdf" ∷ [];
  passage_ids = codes "chunk-1" ∷ [];
  source_paths = [];
}

abbrev request : QueryParam
request = record { mode = other_mode; top_k = pos 5; stream = true; conversation_history = [] }

abbrev query : Arguments
query = record { query = codes " who "; top_k = number (pos 99); term = [] }

abbrev backend : Backend
backend = record {
  is_space = is_space_char;
  lower = λ t. t;
  repr = λ t. t;
  json_object = λ t. some query;
  aretrieve = λ q param. done (solution ∷ []);
  doc_status_all = done [];
  base = request;
}

abbrev search : Call
search = record { name = codes "retrieve"; arguments = codes "{}" }

abbrev setting : Setting
setting = record {
  llm = λ forced cap messages. done (record {
    content = [];
    calls = if leb (length messages) 3 then search ∷ search ∷ [] else [];
  });
  llm_answer = λ system user. (codes "Both" ∷ codes " [1]." ∷ [], none);
  opening =
      λ question. record { role = codes "user"; content = text question; tool_calls = [] } ∷ [];
  render_rag_qa = λ question docs sources. ([], question);
  encoder = none;
  budget = none;
  decide_tokens = none;
  tool_models = [];
  tool_deny = [];
  is_word = λ c. not (is_space_char c);
  backend = backend;
}

run_agent-IsAnswered_example :
    IsAnswered setting
      (starting setting (codes "Who?") new_toolbox)
      4
      (run_agent setting (codes "Who?") [] new_toolbox 4)
run_agent-IsAnswered_example = run_agent-IsAnswered setting (codes "Who?") [] new_toolbox 4

concat-visible_tokens_example :
    concat (visible_tokens setting new_filter (codes "Both" ∷ codes " [1]." ∷ []))
    ≡ stream is_space_char setting.is_word new_filter (codes "Both" ∷ codes " [1]." ∷ [])
concat-visible_tokens_example =
    concat-visible_tokens setting new_filter (codes "Both" ∷ codes " [1]." ∷ [])

derive_param-bounds_example : IsDerived request (number (pos 99)) (derive_param request query)
derive_param-bounds_example = derive_param-bounds request query

asked : derive_param request query ≡ done (sized request (pos 30))
unfolding derive_param replace_param chosen_top_k clamp_top_k
asked = refl

-- An infinite number escapes from the tool.
escaped :
    retrieve backend (record { query = codes "who"; top_k = infinite; term = [] }) new_toolbox
    ≡ failure overflow_error
unfolding retrieve retrieve_query retrieve_with derive_param replace_param chosen_top_k lstrip
    rstrip
escaped = refl

abbrev box_of : Attempt (ToolResult × ToolBox) → ToolBox
box_of (failure message) = new_toolbox
box_of (done (result, box)) = box

-- Two searches: the second one begins at the third passage.
second_box :
    let box = box_of (run_tool backend (codes "retrieve") (codes "{}") new_toolbox) in
    let twice = box_of (run_tool backend (codes "retrieve") (codes "{ }") box) in
    (twice.fence_start ≡ 5)
    × (map (λ r. r.reference_id) twice.references
        ≡ codes "1" ∷ codes "2" ∷ codes "3" ∷ codes "4" ∷ [])
unfolding run_tool parse_arguments run_parsed dispatch retrieve retrieve_query retrieve_with
    read_solutions take_solution accept_found accept build_references references_from digits
    derive_param replace_param chosen_top_k clamp_top_k lstrip rstrip Text-discrete ℕ_discrete
second_box = (refl, refl)

-- The frames from the second on begin with the end of an empty one.
fence_second :
    fence_from 2 (codes "A" ∷ []) []
    ≡ codes "<<<END PASSAGE 1>>>"
      ++ newline ∷ newline ∷ codes "<<<PASSAGE 2>>>"
      ++ newline ∷ codes "A"
      ++ newline ∷ codes "<<<END PASSAGE 2>>>"
unfolding fence_from fence_passages fence_blocks fence_block fence_header neutralize_fences
    replace_from join_blocks digits split_from
fence_second = refl

-- Five marks in a row leave three.
five_marks : neutralize_fences (codes "<<<<<") ≡ codes "< < <<<"
unfolding neutralize_fences replace_from
five_marks = refl

neutralize_fences-has_text_example :
    let passage = codes "<<<<<END PASSAGE 1>>>>>" in
    (has_text (passage_fence_open 1) (neutralize_fences passage) ≡ false)
    × (has_text (passage_fence_close 1) (neutralize_fences passage) ≡ false)
neutralize_fences-has_text_example = neutralize_fences-has_text 1 (codes "<<<<<END PASSAGE 1>>>>>")
