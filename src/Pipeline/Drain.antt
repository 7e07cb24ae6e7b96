-- ===== src/Pipeline/Drain.antt =====
-- memgraphrag/api/routers/documents.py: the loop that drains the pending documents, and the route that
-- queues a document again. The flags of the application and the lock of the pipeline are left out.
use exeio_memgraphrag.Base.{ℕ, zero, suc, List, [], ◌∷◌, if◌then◌else◌, Option, none, some}
use exeio_memgraphrag.Text.Defs.{Text}
use exeio_memgraphrag.Storage.JsonKv.{get_by_id}
use exeio_memgraphrag.Pipeline.Status.{
  DocStatus, pending, parsing, processing, failed, Doc, Store, save, wanted, get_docs_by_statuses,
}
use exeio_memgraphrag.Pipeline.Worker.{Worker, Summary}
use exeio_memgraphrag.Pipeline.Process.{process_pending}

-- `if not pending: break`, with what further rounds give
abbrev pub after_round : {A : Type 0} → List (Text × Doc) → A → Option A → Option A
after_round [] last further = some last
after_round (d ∷ docs) last further = further

-- The documents that are queued while a round runs: one at least, as a round that none is queued in
-- has no entry.
abbrev pub Arrivals : Type 0
Arrivals = (Text × Doc) × List (Text × Doc)

-- The writes of the requests that queue documents.
unfoldable pub save_all : List (Text × Doc) → Store → Store
unfolding save
save_all [] kv = kv
save_all ((doc_id, doc) ∷ docs) kv = save_all docs (save doc_id doc kv)

-- What the round of the worker leaves, with the documents that were queued meanwhile. The worker
-- read its list when it started, so it does not see them: they are written behind its own writes,
-- also a document that is queued again while the round is at work on it.
unfoldable pub arrive : List Arrivals → Store → Store
unfolding save_all
arrive [] kv = kv
arrive ((first, others) ∷ later) kv = save_all (first ∷ others) kv

abbrev pub later_rounds : List Arrivals → List Arrivals
later_rounds [] = []
later_rounds (now ∷ later) = later

module _ {E : Type 0} (worker : Worker E) where
  -- The inner loop of `_drain_until_idle`: none where the rounds do not suffice.
  unfoldable pub drain : ℕ → List Arrivals → Store → E → Option ((Store × E) × Summary)
  unfolding process_pending get_docs_by_statuses arrive
  drain zero arrivals kv engine = none
  drain (suc rounds) arrivals kv engine =
      let ((kv', engine'), summary) = process_pending worker kv engine in
      let queue = arrive arrivals kv' in
      let further = drain rounds (later_rounds arrivals) queue engine' in
      after_round (get_docs_by_statuses (pending ∷ []) queue) ((queue, engine'), summary) further

-- The answer of the route: 404, 400, or the store behind it.
pub data Requeued : Type 0 where
  not_found bad_status : Requeued
  queued : Store → Requeued

abbrev pub requeue_statuses : List DocStatus
requeue_statuses = failed ∷ processing ∷ parsing ∷ pending ∷ []

-- The record that the route writes.
unfoldable pub retry : Doc → Doc
retry doc = record doc {
  status = pending;
  metadata = record doc.metadata { memory_sub_stage = none; error = none };
  chunk_ids = none;
}

unfoldable pub requeue_found : Text → Option Doc → Store → Requeued
unfolding wanted retry save
requeue_found doc_id none kv = not_found
requeue_found doc_id (some doc) kv =
    if wanted requeue_statuses doc then queued (save doc_id (retry doc) kv) else bad_status

unfoldable pub requeue_document : Text → Store → Requeued
unfolding requeue_found get_by_id
requeue_document doc_id kv = requeue_found doc_id (get_by_id doc_id kv) kv
