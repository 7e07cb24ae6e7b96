-- ===== src/Pipeline/Index.antt =====
-- The chunks that the worker of memgraphrag/pipeline.py hands to the engine, and the hashing of
-- memgraphrag/utils/hashing.py. The digest and the engine are parameters.
use exeio_memgraphrag.Base.{ℕ, List, [], ◌∷◌, ◌++◌, Bool, if◌then◌else◌, Option, none, some}
use exeio_memgraphrag.Text.Defs.{Text, codes, strip, lstrip, rstrip}
use exeio_memgraphrag.Text.Find.{starts_with}

-- What a call gives, or the text of the exception that it raised.
pub data Attempt (A : Type 0) : Type 0 where
  done : A → Attempt A
  failure : Text → Attempt A

-- A chunk: `idx` and `id` are empty where they are missing; the other keys are kept and left out.
pub record IndexChunk : Type 0 where
  pub content : Text
  pub idx : Text
  pub id : Text

abbrev pub chunk_prefix : Text
chunk_prefix = codes "chunk-"

-- What the texts of the program need of Python: white space and the MD5 digest in hexadecimal.
pub record Hashing : Type 0 where
  pub is_space : ℕ → Bool
  pub md5 : Text → Text

module _ (hashing : Hashing) where
  open hashing use {is_space, md5}

  unfoldable pub compute_mdhash_id : Text → Text → Text
  compute_mdhash_id content pre = pre ++ md5 content

  unfoldable pub given_id : IndexChunk → Text
  given_id chunk = elim chunk.idx [ [] ↦ chunk.id | c ∷ idx ↦ c ∷ idx ]

  unfoldable pub chunk_id_of : IndexChunk → Text → Text
  unfolding given_id compute_mdhash_id
  chunk_id_of chunk content =
      if starts_with chunk_prefix (given_id chunk)
      then given_id chunk
      else compute_mdhash_id content chunk_prefix

  -- A chunk with its text stripped, in front of those that follow; a blank one is left out.
  unfoldable pub keep_chunk : IndexChunk → Text → List IndexChunk → List IndexChunk
  unfolding chunk_id_of
  keep_chunk chunk [] rest = rest
  keep_chunk chunk (c ∷ content) rest =
      record chunk { idx = chunk_id_of chunk (c ∷ content); content = c ∷ content } ∷ rest

  unfoldable pub assign_chunk_ids : List IndexChunk → List IndexChunk
  unfolding keep_chunk lstrip rstrip
  assign_chunk_ids [] = []
  assign_chunk_ids (chunk ∷ chunks) =
      keep_chunk chunk (strip is_space chunk.content) (assign_chunk_ids chunks)

-- An engine, with what it holds; a method that it does not have is none. A call that raises may have
-- changed it.
abbrev pub IndexMethod : Type 0 → Type 0
IndexMethod E = List IndexChunk → E → Attempt Unit × E

pub record RagEngine (E : Type 0) : Type 0 where
  pub aindex_with_memory : Option (IndexMethod E)
  pub ainsert : Option (IndexMethod E)
  pub index_with_memory : Option (IndexMethod E)
  pub insert : Option (IndexMethod E)

abbrev pub no_chunks : Text
no_chunks = codes "no chunks to index"

abbrev pub no_method : Text
no_method = codes "rag_engine has no aindex_with_memory / ainsert / index_with_memory / insert"

abbrev pub idx_of : List IndexChunk → List Text
idx_of [] = []
idx_of (chunk ∷ chunks) = chunk.idx ∷ idx_of chunks

module _ {E : Type 0} where
  -- A method that is called: the identifiers when it returns.
  abbrev pub report : List Text → Attempt Unit × E → Attempt (List Text) × E
  report chunk_ids (done _, engine) = (done chunk_ids, engine)
  report chunk_ids (failure message, engine) = (failure message, engine)

  -- The first of the methods that the engine has.
  unfoldable pub call_first :
      List (Option (IndexMethod E)) → List IndexChunk → E → Attempt (List Text) × E
  call_first [] prepared engine = (failure no_method, engine)
  call_first (none ∷ methods) prepared engine = call_first methods prepared engine
  call_first (some method ∷ methods) prepared engine =
      report (idx_of prepared) (method prepared engine)

  abbrev pub methods_of : RagEngine E → List (Option (IndexMethod E))
  methods_of rag = rag.aindex_with_memory ∷ rag.ainsert ∷ rag.index_with_memory ∷ rag.insert ∷ []

  unfoldable pub index_prepared : RagEngine E → List IndexChunk → E → Attempt (List Text) × E
  unfolding call_first
  index_prepared rag [] engine = (failure no_chunks, engine)
  index_prepared rag (chunk ∷ prepared) engine =
      call_first (methods_of rag) (chunk ∷ prepared) engine

  unfoldable pub index_chunks :
      Hashing → RagEngine E → List IndexChunk → E → Attempt (List Text) × E
  unfolding index_prepared assign_chunk_ids
  index_chunks hashing rag chunks engine =
      index_prepared rag (assign_chunk_ids hashing chunks) engine
