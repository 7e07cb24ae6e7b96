-- ===== src/Agent/References.antt =====
-- What the tools of memgraphrag/agent/tools.py are given and keep, and the references of
-- memgraphrag/utils/misc.py.
use exeio_memgraphrag.Base.{ℕ, ℤ, suc, List, [], ◌∷◌, Bool, Option, none, some}
use exeio_memgraphrag.Text.Defs.{Text, codes, strip, lstrip, rstrip}
use exeio_memgraphrag.Pipeline.Index.{Attempt}
use exeio_memgraphrag.Agent.Fence.{decimal, digits}

-- What the engine found: the lists beside `docs` are as long as they happen to be.
pub record QuerySolution : Type 0 where
  pub docs : List Text
  pub sources : List Text
  pub passage_ids : List Text
  pub source_paths : List Text

pub record Reference : Type 0 where
  pub reference_id : Text
  pub file_path : Text
  pub source_path : Option Text
  pub chunk_id : Option Text

pub data Mode : Type 0 where
  ppr other_mode : Mode

-- `QueryParam`, less the fields that no tool changes; the history is a list of texts.
pub record QueryParam : Type 0 where
  pub mode : Mode
  pub top_k : ℤ
  pub stream : Bool
  pub conversation_history : List Text

-- `top_k` of the arguments, as `int` takes it: not given or null; refused with a TypeError or a
-- ValueError; an infinite float, at which `int` raises an OverflowError; or a number.
pub data TopK : Type 0 where
  not_given refused infinite : TopK
  number : ℤ → TopK

-- The arguments of a call as the tools read them: a text that is missing is empty.
pub record Arguments : Type 0 where
  pub query : Text
  pub top_k : TopK
  pub term : Text

pub record ToolResult : Type 0 where
  pub text : Text
  pub error : Option Text

pub record ToolBox : Type 0 where
  pub fence_start : ℕ
  pub references : List Reference
  pub docs : List Text
  pub sources : List Text

abbrev pub new_toolbox : ToolBox
new_toolbox = record { fence_start = 1; references = []; docs = []; sources = [] }

-- What the tools call: JSON's objects, the engine's retrieval and its listing of the file paths.
pub record Backend : Type 0 where
  pub is_space : ℕ → Bool
  pub lower : Text → Text
  pub repr : Text → Text
  pub json_object : Text → Option Arguments
  pub aretrieve : Text → QueryParam → Attempt (List QuerySolution)
  pub doc_status_all : Attempt (List Text)
  pub base : QueryParam

-- The element at the head, or an empty text.
abbrev pub first_or_empty : List Text → Text
first_or_empty [] = []
first_or_empty (t ∷ ts) = t

abbrev pub rest_of : List Text → List Text
rest_of [] = []
rest_of (t ∷ ts) = ts

abbrev pub given_text : Text → Option Text
given_text [] = none
given_text (c ∷ t) = some (c ∷ t)

abbrev pub or_unknown : Text → Text
or_unknown [] = codes "unknown"
or_unknown (c ∷ t) = c ∷ t

module _ (is_space : ℕ → Bool) where
  -- The loop of `ensure_references`: a reference for each passage, numbered from `start`.
  unfoldable pub references_from :
      ℕ → List Text → List Text → List Text → List Text → List Reference
  unfolding digits lstrip rstrip
  references_from start [] sources ids paths = []
  references_from start (doc ∷ docs) sources ids paths =
      record {
        reference_id = decimal start;
        file_path = or_unknown (strip is_space (first_or_empty sources));
        source_path = given_text (first_or_empty paths);
        chunk_id = given_text (first_or_empty ids);
      }
      ∷ references_from (suc start) docs (rest_of sources) (rest_of ids) (rest_of paths)

  unfoldable pub build_references : ℕ → QuerySolution → List Reference
  unfolding references_from
  build_references start s = references_from start s.docs s.sources s.passage_ids s.source_paths
