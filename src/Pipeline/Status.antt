-- ===== src/Pipeline/Status.antt =====
-- The records of doc-status, their changes outside of the worker (memgraphrag/pipeline.py), and the
-- store of them (memgraphrag/storage/json_doc_status_impl.py). The times of a record are left out.
use exeio_memgraphrag.Base.{
  ℕ, ◌-◌, List, [], ◌∷◌, ◌++◌, Bool, true, false, if◌then◌else◌, leb, length, Option, none, some,
}
use exeio_memgraphrag.Text.Defs.{Text, codes}
use exeio_memgraphrag.Text.Find.{take}
use exeio_memgraphrag.Storage.JsonKv.{JsonKvStorage, upsert}

pub data DocStatus : Type 0 where
  pending parsing processing processed failed : DocStatus

-- The value of a status.
abbrev pub status_value : DocStatus → Text
status_value pending = codes "pending"
status_value parsing = codes "parsing"
status_value processing = codes "processing"
status_value processed = codes "processed"
status_value failed = codes "failed"

-- `metadata`; a key that is missing is none
pub record Metadata : Type 0 where
  pub memory_sub_stage : Option Text
  pub error : Option Text
  pub recovered_from : Option Text

-- `chunk_options`: the keys that the pipeline reads
pub record ChunkOptions : Type 0 where
  pub chunk_token_size : Option ℕ
  pub chunk_overlap_token_size : Option ℕ
  pub split_by_character : Option Text
  pub split_by_character_only : Option Bool
  pub separators : Option (List Text)

-- A record; `id` is the key `_id`, which the store sets, `content` is of earlier versions.
pub record Doc : Type 0 where
  pub id : Option Text
  pub status : DocStatus
  pub file_path : Text
  pub content : Option Text
  pub content_summary : Text
  pub content_length : ℕ
  pub parse_engine : Text
  pub process_options : Text
  pub chunk_options : ChunkOptions
  pub metadata : Metadata
  pub parse_format : Option Text
  pub blocks_path : Option Text
  pub chunk_count : Option ℕ
  pub chunk_ids : Option (List Text)

abbrev pub Store : Type 0
Store = JsonKvStorage Doc

-- `record["_id"] = key`
abbrev pub with_id : Text → Doc → Doc
with_id key doc = record doc { id = some key }

-- `storage.upsert({doc_id: doc})`
unfoldable pub save : Text → Doc → Store → Store
unfolding upsert
save doc_id doc kv = upsert with_id ((doc_id, doc) ∷ []) kv

unfoldable pub is_status : DocStatus → DocStatus → Bool
is_status pending pending = true
is_status parsing parsing = true
is_status processing processing = true
is_status processed processed = true
is_status failed failed = true
is_status _ _ = false

unfoldable pub wanted : List DocStatus → Doc → Bool
unfolding is_status
wanted [] doc = false
wanted (s ∷ statuses) doc =
    let rest = wanted statuses doc in if is_status doc.status s then true else rest

unfoldable pub select_docs : List DocStatus → List (Text × Doc) → List (Text × Doc)
unfolding wanted
select_docs statuses [] = []
select_docs statuses ((doc_id, doc) ∷ items) =
    let rest = select_docs statuses items in
    if wanted statuses doc then (doc_id, doc) ∷ rest else rest

unfoldable pub get_docs_by_statuses : List DocStatus → Store → List (Text × Doc)
unfolding select_docs
get_docs_by_statuses statuses kv = select_docs statuses kv.items

abbrev pub or_else : Option Text → Option Text → Option Text
or_else none old = old
or_else (some new) old = some new

-- `_set_status` without its extra fields, before the record is stored
unfoldable pub set_status : Doc → DocStatus → Option Text → Option Text → Doc
set_status doc status memory_sub_stage error = record doc {
  status = status;
  metadata = record doc.metadata {
    memory_sub_stage = or_else memory_sub_stage doc.metadata.memory_sub_stage;
    error = or_else error doc.metadata.error;
  };
}

-- `" ".join(text.split())`, of which the first argument says what is a space
unfoldable pub words : (ℕ → Bool) → Text → Text → List Text
words is_space [] [] = []
words is_space (w ∷ word) [] = (w ∷ word) ∷ []
words is_space [] (c ∷ text) =
    let skipped = words is_space [] text in
    let rest = words is_space (c ∷ []) text in if is_space c then skipped else rest
words is_space (w ∷ word) (c ∷ text) =
    let split = words is_space [] text in
    let rest = words is_space ((w ∷ word) ++ c ∷ []) text in
    if is_space c then (w ∷ word) ∷ split else rest

abbrev pub join_words : List Text → Text
join_words [] = []
join_words (w ∷ []) = w
join_words (w ∷ v ∷ ws) = w ++ codes " " ++ join_words (v ∷ ws)

unfoldable pub truncate : (ℕ → Bool) → Text → ℕ → Text
unfolding words
truncate is_space value limit =
    let text = join_words (words is_space [] value) in
    if leb (length text) limit then text else take (limit - 3) text ++ codes "..."

abbrev pub content_summary_limit : ℕ
content_summary_limit = 200

abbrev pub no_options : ChunkOptions
no_options = record {
  chunk_token_size = none;
  chunk_overlap_token_size = none;
  split_by_character = none;
  split_by_character_only = none;
  separators = none;
}

abbrev pub or_empty : Option Text → Text
or_empty none = []
or_empty (some t) = t

-- The engine and the options: those given, or those of the routing, which may raise.
unfoldable pub route : (Text → Option (Text × Text)) → Text → Option Text → Text × Text
route resolve_parser_directives file_path (some (c ∷ engine)) = (c ∷ engine, [])
route resolve_parser_directives file_path _ = elim (resolve_parser_directives file_path) [
  | none ↦ (codes "legacy", [])
  | some (engine, process_options) ↦ (engine, process_options)
]

module _ (is_space : ℕ → Bool) (resolve_parser_directives : Text → Option (Text × Text)) where
  -- The record that `enqueue_document` makes.
  unfoldable pub new_document : Text → Option Text → Option Text → Option ChunkOptions → Doc
  unfolding truncate route
  new_document file_path content parse_engine chunk_options =
      let (engine, process_options) = route resolve_parser_directives file_path parse_engine in
      record {
        id = none;
        status = pending;
        file_path = file_path;
        content = none;
        content_summary = truncate is_space (or_empty content) content_summary_limit;
        content_length = length (or_empty content);
        parse_engine = engine;
        process_options = process_options;
        chunk_options = elim chunk_options [ none ↦ no_options | some o ↦ o ];
        metadata = record { memory_sub_stage = none; error = none; recovered_from = none };
        parse_format = none;
        blocks_path = none;
        chunk_count = none;
        chunk_ids = none;
      }

  unfoldable pub enqueue_document :
      Text → Text → Option Text → Option Text → Option ChunkOptions → Store → Store
  unfolding save new_document
  enqueue_document doc_id file_path content parse_engine chunk_options kv =
      save doc_id (new_document file_path content parse_engine chunk_options) kv

-- The record of a document that a worker left in the middle.
unfoldable pub recover : Doc → Doc
recover doc = record doc {
  status = pending;
  metadata = record doc.metadata {
    memory_sub_stage = none;
    recovered_from = some (status_value doc.status);
  };
  chunk_ids = none;
}

unfoldable pub requeue : List (Text × Doc) → Store → Store
unfolding recover save
requeue [] kv = kv
requeue ((doc_id, doc) ∷ stuck) kv = requeue stuck (save doc_id (recover doc) kv)

abbrev pub interrupted_statuses : List DocStatus
interrupted_statuses = parsing ∷ processing ∷ []

abbrev pub doc_ids_of : List (Text × Doc) → List Text
doc_ids_of [] = []
doc_ids_of ((doc_id, doc) ∷ docs) = doc_id ∷ doc_ids_of docs

unfoldable pub reset_interrupted_documents : Store → List Text × Store
unfolding get_docs_by_statuses requeue
reset_interrupted_documents kv =
    let stuck = get_docs_by_statuses interrupted_statuses kv in (doc_ids_of stuck, requeue stuck kv)
