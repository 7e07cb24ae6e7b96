-- ===== src/Pipeline/Process.antt =====
-- The worker of memgraphrag/pipeline.py: `process_pending`. The files, the parsers, the chunkers and the engine
-- are parameters; the numbers of the environment are read. The progress of a document is kept when
-- a call raises, since the handler of the exception works on it.
use exeio_memgraphrag.Base.{
  suc, Option, List, [], ◌∷◌, ◌++◌, if◌then◌else◌, not, ◌&&◌, length, none, some,
}
use exeio_memgraphrag.Text.Defs.{Text, codes}
use exeio_memgraphrag.Pipeline.Status.{
  pending, parsing, processing, processed, failed, Doc, Store, save, set_status,
  get_docs_by_statuses,
}
use exeio_memgraphrag.Pipeline.Index.{Attempt, done, failure, IndexChunk, index_chunks}
use exeio_memgraphrag.Pipeline.Worker.{
  ParseContext, ParseResult, Summary, Worker, chunk_arguments, memory_sub_stages,
  no_chunks_produced, or_legacy, or_number, parse_chunking_strategy,
}

-- Where a document has got to: its record and the store; with what a failed call said.
pub record Progress (E : Type 0) : Type 0 where
  pub doc : Doc
  pub kv : Store
  pub engine : E

-- What the body of the `try` ends in, and the progress then.
abbrev pub Outcome : Type 0 → Type 0
Outcome E = Attempt Unit × Progress E

-- A change of status, stored.
abbrev pub saved : {E : Type 0} → Text → Doc → Progress E → Progress E
saved doc_id doc p = record p { doc = doc; kv = save doc_id doc p.kv }

abbrev pub count_processed : Text → Summary → Summary
count_processed doc_id s = record s {
  processed = suc s.processed;
  doc_ids = s.doc_ids ++ doc_id ∷ [];
}

abbrev pub count_failed : Text → Summary → Summary
count_failed doc_id s = record s { failed = suc s.failed; doc_ids = s.doc_ids ++ doc_id ∷ [] }

-- The writes of a document, each at its place in the `try` or in its handler.
module _ {E : Type 0} where
  unfoldable pub start_parsing : Text → Progress E → Progress E
  unfolding save set_status
  start_parsing doc_id p = saved doc_id (set_status p.doc parsing none none) p

  unfoldable pub start_processing : Text → ParseResult → List IndexChunk → Progress E → Progress E
  unfolding save set_status
  start_processing doc_id parsed chunks p =
      saved doc_id
        (record (set_status p.doc processing (some (codes "openie")) none) {
          parse_format = some parsed.parse_format;
          blocks_path = some parsed.blocks_path;
          chunk_count = some (length chunks);
        })
        p

  unfoldable pub enter_stage : Text → Text → Progress E → Progress E
  unfolding save
  enter_stage doc_id stage p =
      let doc = p.doc in
      saved doc_id (record doc { metadata = record doc.metadata { memory_sub_stage = some stage } })
        p

  unfoldable pub enter_stages : Text → List Text → Progress E → Progress E
  unfolding enter_stage
  enter_stages doc_id [] p = p
  enter_stages doc_id (stage ∷ stages) p = enter_stages doc_id stages (enter_stage doc_id stage p)

  unfoldable pub finish : Text → List Text → Progress E → Progress E
  unfolding save set_status
  finish doc_id chunk_ids p =
      saved doc_id
        (record (set_status p.doc processed (some (codes "done")) none) {
          chunk_count = some (length chunk_ids);
          chunk_ids = some chunk_ids;
        })
        p

  unfoldable pub fail_document : Text → Text → Progress E → Progress E
  unfolding save set_status
  fail_document doc_id message p = saved doc_id (set_status p.doc failed none (some message)) p

  -- The end of the `try`, from what the engine gave.
  unfoldable pub end_document : Text → Attempt (List Text) → Progress E → Outcome E
  unfolding finish
  end_document doc_id (failure message) p = (failure message, p)
  end_document doc_id (done chunk_ids) p = (done tt, finish doc_id chunk_ids p)

  -- Behind the `try`: the summary, and the handler of an exception.
  unfoldable pub conclude : Text → Outcome E → Summary → Progress E × Summary
  unfolding fail_document
  conclude doc_id (done _, p) s = (p, count_processed doc_id s)
  conclude doc_id (failure message, p) s = (fail_document doc_id message p, count_failed doc_id s)

module _ {E : Type 0} (worker : Worker E) where
  open worker use {files, input_dir, hashing, rag, chunk_size, chunk_overlap_size}

  -- An `input_dir` that is missing or empty counts as none.
  unfoldable pub source_in : Option Text → Text → Text
  source_in (some (c ∷ dir)) file_path =
      let candidate = files.join (c ∷ dir) (files.name file_path) in
      if not (files.is_file file_path) && files.is_file candidate
      then candidate
      else files.text file_path
  source_in _ file_path = files.text file_path

  unfoldable pub source_of : Text → Text
  unfolding source_in
  source_of file_path = source_in input_dir file_path

  unfoldable pub context_of : Text → Doc → ParseContext
  unfolding source_of
  context_of doc_id doc =
      let source = source_of doc.file_path in
      record {
        doc_id = doc_id;
        file_path = doc.file_path;
        content = doc.content;
        source_file = if files.is_file source then source else doc.file_path;
      }

  unfoldable pub chunks_of : Text → Doc → ParseResult → Attempt (List IndexChunk)
  unfolding parse_chunking_strategy chunk_arguments
  chunks_of doc_id doc parsed =
      let strategy = parse_chunking_strategy doc.process_options in
      let options = doc.chunk_options in
      let overlap = or_number options.chunk_overlap_token_size chunk_overlap_size in
      let chunks =
        worker.chunk strategy parsed.content (or_number options.chunk_token_size chunk_size)
          (chunk_arguments doc_id strategy parsed options overlap) in
      elim chunks [
        | done [] ↦ failure no_chunks_produced
        | done (c ∷ cs) ↦ done (c ∷ cs)
        | failure message ↦ failure message
      ]

  unfoldable pub parse_and_chunk : Text → Doc → Attempt (ParseResult × List IndexChunk)
  unfolding chunks_of context_of or_legacy
  parse_and_chunk doc_id doc =
      elim (worker.parse (or_legacy doc.parse_engine) (context_of doc_id doc)) [
        | failure message ↦ failure message
        | done parsed ↦ elim (chunks_of doc_id doc parsed) [
          | failure message ↦ failure message
          | done chunks ↦ done (parsed, chunks)
        ]
      ]

  -- The body of the `try` behind the parsing, from what it gave.
  unfoldable pub index_document :
      Text → Attempt (ParseResult × List IndexChunk) → Progress E → Outcome E
  unfolding start_processing enter_stages index_chunks end_document
  index_document doc_id (failure message) p = (failure message, p)
  index_document doc_id (done (parsed, chunks)) p =
      let staged =
        enter_stages doc_id memory_sub_stages (start_processing doc_id parsed chunks p) in
      let (indexed, engine) = index_chunks hashing rag chunks staged.engine in
      end_document doc_id indexed (record staged { engine = engine })

  -- The body of the `try`.
  unfoldable pub try_document : Text → Progress E → Outcome E
  unfolding start_parsing parse_and_chunk index_document
  try_document doc_id p =
      let started = start_parsing doc_id p in
      index_document doc_id (parse_and_chunk doc_id started.doc) started

  -- A round of the loop.
  unfoldable pub process_document : Text → Progress E → Summary → Progress E × Summary
  unfolding try_document conclude
  process_document doc_id p s = conclude doc_id (try_document doc_id p) s

  unfoldable pub process_documents : List (Text × Doc) → Store → E → Summary → (Store × E) × Summary
  unfolding process_document
  process_documents [] kv engine s = ((kv, engine), s)
  process_documents ((doc_id, doc) ∷ docs) kv engine s =
      let (p, s') = process_document doc_id (record { doc = doc; kv = kv; engine = engine }) s in
      process_documents docs p.kv p.engine s'

  unfoldable pub process_pending : Store → E → (Store × E) × Summary
  unfolding process_documents get_docs_by_statuses
  process_pending kv engine =
      process_documents (get_docs_by_statuses (pending ∷ []) kv) kv engine
        (record { processed = 0; failed = 0; doc_ids = [] })
