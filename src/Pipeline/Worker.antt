-- ===== src/Pipeline/Worker.antt =====
-- What the worker of memgraphrag/pipeline.py is given: files, parsers, chunkers, the engine and the
-- environment; and its choice of a chunker (memgraphrag/parser/routing.py).
use exeio_memgraphrag.Base.{
  ℕ, zero, suc, List, [], ◌∷◌, Bool, true, false, if◌then◌else◌, ◌==◌, Option, none, some,
}
use exeio_memgraphrag.Text.Defs.{Text, codes}
use exeio_memgraphrag.Pipeline.Status.{ChunkOptions}
use exeio_memgraphrag.Pipeline.Index.{Attempt, IndexChunk, Hashing, RagEngine}

-- The file system, and the paths of Python: `text` is `str(Path(p))`.
pub record Files : Type 0 where
  pub is_file : Text → Bool
  pub text : Text → Text
  pub name : Text → Text
  pub join : Text → Text → Text

-- `ParseContext`, less the engine, which the parsers keep as it is
pub record ParseContext : Type 0 where
  pub doc_id : Text
  pub file_path : Text
  pub content : Option Text
  pub source_file : Text

pub record ParseResult : Type 0 where
  pub content : Text
  pub parse_format : Text
  pub blocks_path : Text

-- The keyword arguments of a chunker.
pub record ChunkArguments : Type 0 where
  pub chunk_overlap_token_size : ℕ
  pub blocks_path : Option Text
  pub doc_id : Option Text
  pub split_by_character : Option Text
  pub split_by_character_only : Option Bool
  pub separators : Option (List Text)

pub data Strategy : Type 0 where
  fixed recursive paragraph : Strategy

-- `get_parser(engine).parse(context)`, and `get_chunker(strategy)` with the tokenizer; either raises
-- as the call of what it gets does. The sizes are those of the environment.
pub record Worker (E : Type 0) : Type 0 where
  pub files : Files
  pub input_dir : Option Text
  pub parse : Text → ParseContext → Attempt ParseResult
  pub chunk : Strategy → Text → ℕ → ChunkArguments → Attempt (List IndexChunk)
  pub chunk_size : ℕ
  pub chunk_overlap_size : ℕ
  pub hashing : Hashing
  pub rag : RagEngine E

pub record Summary : Type 0 where
  pub processed : ℕ
  pub failed : ℕ
  pub doc_ids : List Text

-- Is `c` one of the characters of `text`?
unfoldable pub has_char : ℕ → Text → Bool
has_char c [] = false
has_char c (d ∷ text) = if c == d then true else has_char c text

-- memgraphrag/parser/routing.py
unfoldable pub sanitize_process_options : Text → Text
unfolding has_char
sanitize_process_options [] = []
sanitize_process_options (c ∷ options) =
    let rest = sanitize_process_options options in
    if has_char c (codes "ite!FRP") then c ∷ rest else rest

-- The first character that names a strategy.
unfoldable pub first_strategy : Text → Strategy
unfolding has_char
first_strategy [] = fixed
first_strategy (c ∷ options) =
    let rest = first_strategy options in
    if has_char c (codes "F")
    then fixed
    else if has_char c (codes "R")
    then recursive
    else if has_char c (codes "P")
    then paragraph
    else rest

unfoldable pub parse_chunking_strategy : Text → Strategy
unfolding sanitize_process_options first_strategy
parse_chunking_strategy process_options = first_strategy (sanitize_process_options process_options)

abbrev pub memory_sub_stages : List Text
memory_sub_stages =
    codes "openie"
    ∷ codes "memory_build"
    ∷ codes "schema_extraction"
    ∷ codes "ontology_filter"
    ∷ codes "conflict_detection"
    ∷ codes "conflict_resolution"
    ∷ codes "graph_install"
    ∷ []

-- `number or default`
abbrev pub or_number : Option ℕ → ℕ → ℕ
or_number none default = default
or_number (some zero) default = default
or_number (some (suc n)) default = suc n

unfoldable pub or_legacy : Text → Text
or_legacy [] = codes "legacy"
or_legacy (c ∷ engine) = c ∷ engine

abbrev pub is_given : Option Text → Bool
is_given (some (c ∷ text)) = true
is_given _ = false

-- `text or None`
abbrev pub given : Text → Option Text
given [] = none
given (c ∷ text) = some (c ∷ text)

abbrev pub no_chunks_produced : Text
no_chunks_produced = codes "chunker produced no chunks"

unfoldable pub chunk_arguments : Text → Strategy → ParseResult → ChunkOptions → ℕ → ChunkArguments
chunk_arguments doc_id strategy parsed options overlap =
    let bare : ChunkArguments = record {
      chunk_overlap_token_size = overlap;
      blocks_path = none;
      doc_id = none;
      split_by_character = none;
      split_by_character_only = none;
      separators = none;
    } in
    elim strategy [
      | paragraph ↦ record bare { blocks_path = given parsed.blocks_path; doc_id = some doc_id }
      | fixed ↦ record bare {
        split_by_character = options.split_by_character;
        split_by_character_only = options.split_by_character_only;
      }
      | recursive ↦ record bare { separators = options.separators }
    ]
