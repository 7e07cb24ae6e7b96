-- ===== src/Pipeline/Tests.antt =====
-- A store of three documents, and an engine that counts its chunks.
use exeio_memgraphrag.Base.{
  ℕ, ◌+◌, ◌==◌, List, [], ◌∷◌, ◌++◌, Bool, true, false, ◌≡◌, ◌≢◌, ◌⊎◌, ◌≤◌, refl, Option, some,
  none, ℕ_discrete, length, map,
}
use mathlib.Core.Option
use exeio_memgraphrag.Base.Dict.{get, put}
use exeio_memgraphrag.Text.Defs.{Text, Text-discrete, codes, lstrip, rstrip}
use exeio_memgraphrag.Storage.JsonKv.{missing, flush, get_by_id, put_all, upsert}
use exeio_memgraphrag.Storage.Replayed.{view}
use exeio_memgraphrag.Pipeline.Status.{
  DocStatus, pending, parsing, processed, failed, Doc, Store, new_document, save, is_status, wanted,
  select_docs, get_docs_by_statuses, doc_ids_of, set_status, recover, requeue,
  reset_interrupted_documents, interrupted_statuses, words, truncate, route,
}
use exeio_memgraphrag.Pipeline.Index.{
  done, failure, IndexChunk, Hashing, RagEngine, compute_mdhash_id, given_id, chunk_id_of,
  keep_chunk, assign_chunk_ids, call_first, index_prepared, index_chunks, no_chunks,
}
use exeio_memgraphrag.Pipeline.Process.{
  start_parsing, start_processing, enter_stage, enter_stages, finish, end_document, conclude,
  fail_document, source_of, context_of, chunks_of, parse_and_chunk, index_document, try_document,
  process_document, process_documents, process_pending,
}
use exeio_memgraphrag.Pipeline.Worker.{
  Summary, Worker, has_char, sanitize_process_options, first_strategy, fixed, recursive,
  parse_chunking_strategy, or_legacy, chunk_arguments,
}
use exeio_memgraphrag.Pipeline.Written.{IsStore}
use exeio_memgraphrag.Pipeline.Settled.{Concludes, no_summary, IsSettled, process_pending-IsSettled}
use exeio_memgraphrag.Pipeline.Recovered.{
  requeued, reset_interrupted_documents-view, process_pending-reset,
}
use exeio_memgraphrag.Pipeline.Drain.{
  Arrivals, drain, requeue_document, requeue_found, retry, not_found, bad_status, queued,
}
use exeio_memgraphrag.Pipeline.Drained.{
  IsWaiting, Arrives, drain-IsSettled, requeue_document-IsSettled,
}
use exeio_memgraphrag.Pipeline.Prepared.{AllChunkIds, AllBlank, index_chunks-AllChunkIds}

abbrev is_space_char : ℕ → Bool
is_space_char c = c == 32

abbrev hash : Hashing
hash = record { is_space = is_space_char; md5 = λ t. codes "0" }

abbrev counting : RagEngine ℕ
counting = record {
  aindex_with_memory = none;
  ainsert = some (λ chunks n. (done tt, n + length chunks));
  index_with_memory = none;
  insert = none;
}

abbrev worker : Worker ℕ
worker = record {
  files = record {
    is_file = λ p. true;
    text = λ p. p;
    name = λ p. p;
    join = λ p q. p ++ codes "/" ++ q;
  };
  input_dir = none;
  parse = λ engine context.
      done (record { content = context.doc_id; parse_format = codes "text"; blocks_path = [] });
  chunk = λ strategy content size arguments. done (
      record { content = content; idx = []; id = [] }
      ∷ record { content = codes "  "; idx = []; id = [] }
      ∷ []);
  chunk_size = 1200;
  chunk_overlap_size = 100;
  hashing = hash;
  rag = counting;
}

abbrev routing : Text → Option (Text × Text)
routing path = none

abbrev document : DocStatus → Doc
document status =
    record (new_document is_space_char routing (codes "a.txt") (some (codes "a  b")) none none) {
      status = status;
    }

abbrev store : Store
store = record {
  items =
      (codes "one", document pending)
      ∷ (codes " ", document pending)
      ∷ (codes "two", document parsing)
      ∷ [];
  dirty = false;
  batch_depth = 0;
  disk = missing;
}

preview : (document pending).content_summary ≡ codes "a b"
unfolding new_document truncate words ℕ_discrete
preview = refl

strategies :
    (parse_chunking_strategy (codes "xi") ≡ fixed)
    × (parse_chunking_strategy (codes "iRP") ≡ recursive)
unfolding parse_chunking_strategy sanitize_process_options first_strategy has_char
strategies = (refl, refl)

abbrev statuses : Store → List DocStatus
statuses kv = map (λ item. item.1.status) kv.items

one_run :
    let ((kv, chunks), summary) = process_pending worker store 0 in
    (statuses kv ≡ processed ∷ failed ∷ parsing ∷ [])
    × (chunks ≡ 1)
    × (summary.processed ≡ 1)
    × (summary.failed ≡ 1)
unfolding process_pending process_documents process_document try_document conclude index_document
    end_document fail_document finish enter_stages enter_stage start_processing start_parsing save
    upsert put_all put flush set_status get_docs_by_statuses select_docs wanted is_status
    parse_and_chunk chunks_of context_of source_of parse_chunking_strategy sanitize_process_options
    first_strategy has_char chunk_arguments or_legacy index_chunks index_prepared call_first
    assign_chunk_ids keep_chunk chunk_id_of given_id compute_mdhash_id lstrip rstrip Text-discrete
    ℕ_discrete new_document route
one_run = (refl, refl, refl, refl)

store-IsStore : IsStore store
unfolding get Text-discrete ℕ_discrete
store-IsStore = (refl, (refl, (refl, tt)))

process_pending-IsSettled_example :
    let ((kv', _), s) = process_pending worker store 0 in
    let docs = get_docs_by_statuses (pending ∷ []) store in
    ((id : Text)
      → ((doc : Doc) × (view store id ≡ some doc)
          × (doc.status ≡ pending)
          × Concludes worker docs store 0 no_summary id doc (view kv' id))
        ⊎ ((view kv' id ≡ view store id)
            × ((doc : Doc) → view store id ≡ some doc → doc.status ≢ pending)))
    × (s.doc_ids ≡ doc_ids_of docs)
    × (s.processed + s.failed ≡ length docs)
process_pending-IsSettled_example = process_pending-IsSettled worker store 0 store-IsStore

reset_interrupted_documents-view_example :
    let (ids, kv') = reset_interrupted_documents store in
    ((id : Text) → view kv' id ≡ Option.map (requeued id) (view store id))
    × (ids ≡ doc_ids_of (get_docs_by_statuses interrupted_statuses store))
    × IsStore kv'
reset_interrupted_documents-view_example = reset_interrupted_documents-view store store-IsStore

abbrev after_start : Store
after_start = (process_pending worker (reset_interrupted_documents store).1 0).0.0

abbrev recovered : Doc
recovered = elim (view after_start (codes "two")) [ none ↦ document pending | some doc ↦ doc ]

process_pending-reset_example : (recovered.status ≡ processed) ⊎ (recovered.status ≡ failed)
unfolding process_pending process_documents process_document try_document conclude index_document
    end_document fail_document finish enter_stages enter_stage start_processing start_parsing save
    upsert put_all put flush set_status get_docs_by_statuses select_docs wanted is_status
    parse_and_chunk chunks_of context_of source_of parse_chunking_strategy sanitize_process_options
    first_strategy has_char chunk_arguments or_legacy index_chunks index_prepared call_first
    assign_chunk_ids keep_chunk chunk_id_of given_id compute_mdhash_id lstrip rstrip Text-discrete
    ℕ_discrete new_document route reset_interrupted_documents requeue recover get_by_id get
process_pending-reset_example =
    process_pending-reset worker store 0 store-IsStore (codes "two") recovered refl

abbrev two_chunks : List IndexChunk
two_chunks =
    record { content = codes "a"; idx = codes "chunk-9"; id = [] }
    ∷ record { content = codes " "; idx = []; id = [] }
    ∷ []

index_chunks-AllChunkIds_example :
    let result = index_chunks hash counting two_chunks 5 in
    ((ids : List Text)
      → result.0 ≡ done ids
      → AllChunkIds ids × (1 ≤ length ids) × (length ids ≤ length two_chunks))
    × (AllBlank hash two_chunks → result ≡ (failure no_chunks, 5))
index_chunks-AllChunkIds_example = index_chunks-AllChunkIds hash counting two_chunks 5

-- While the first round runs, a document is queued; a second one is queued while the next runs.
abbrev arrivals : List Arrivals
arrivals =
    ((codes "three", document pending), [])
    ∷ ((codes " ", document pending), (codes "four", document pending) ∷ [])
    ∷ []

drain-IsSettled_example :
    (last : (Store × ℕ) × Summary) × (drain worker 3 arrivals store 0 ≡ some last)
    × ((id : Text) (doc : Doc) → view last.0.0 id ≡ some doc → doc.status ≢ pending)
    × ((id : Text) → IsWaiting (view store id) ⊎ Arrives id arrivals → IsSettled (view last.0.0 id))
drain-IsSettled_example =
    drain-IsSettled worker arrivals store 0 store-IsStore ((refl, tt), ((refl, (refl, tt)), tt))

abbrev queued_again : Store
queued_again = elim (requeue_document (codes "two") store) [
  | not_found ↦ store
  | bad_status ↦ store
  | queued kv ↦ kv
]

requeue_document-IsSettled_example :
    ((doc : Doc) × (view queued_again (codes "two") ≡ some doc)
      × (doc.status ≡ pending)
      × (doc.metadata.error ≡ none))
    × IsSettled (view (process_pending worker queued_again 0).0.0 (codes "two"))
unfolding requeue_document requeue_found retry get_by_id get wanted is_status save upsert put_all
    put flush Text-discrete ℕ_discrete new_document route
requeue_document-IsSettled_example =
    requeue_document-IsSettled worker (codes "two") store queued_again 0 store-IsStore refl
