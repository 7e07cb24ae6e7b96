-- ===== src/Pipeline/Moved.antt =====
-- The life of a document (memgraphrag/pipeline.py): which changes of status the worker makes.
use exeio_memgraphrag.Base.{
  List, [], ◌∷◌, some, ◌≡◌, refl, sym, subst, ap, ◌∙◌, inl, inr, ◌⊎◌, length,
}
use exeio_memgraphrag.Text.Defs.{Text, codes}
use exeio_memgraphrag.Storage.Replayed.{view, update_at}
use exeio_memgraphrag.Pipeline.Status.{
  DocStatus, pending, parsing, processing, processed, failed, Doc, Store, with_id, save, set_status,
}
use exeio_memgraphrag.Pipeline.Index.{Attempt, done, failure, IndexChunk, index_chunks}
use exeio_memgraphrag.Pipeline.Process.{
  Progress, Outcome, saved, start_parsing, parse_and_chunk, start_processing, enter_stage,
  enter_stages, finish, end_document, conclude, index_document, try_document, fail_document,
  process_document, count_processed, count_failed,
}
use exeio_memgraphrag.Pipeline.Worker.{Worker, ParseResult, Summary, memory_sub_stages}
use exeio_memgraphrag.Pipeline.Written.{view-save, update_at-again, update_at-same}

-- What may follow a status.
pub data Next : DocStatus → DocStatus → Type 0 where
  to_parsing : Next pending parsing
  to_processing : Next parsing processing
  to_stage : Next processing processing
  to_processed : Next processing processed
  parsing_failed : Next parsing failed
  indexing_failed : Next processing failed

-- Writes one after the other, each of a document that is there, to a status that may follow.
pub data Moves : Store → Store → Type 0 where
  still : {kv : Store} → Moves kv kv
  move :
      {kv kv' : Store} (doc_id : Text) (old doc : Doc)
      → view kv doc_id ≡ some old
      → Next old.status doc.status
      → Moves (save doc_id doc kv) kv'
      → Moves kv kv'

pub Moves-trans : {a b c : Store} → Moves a b → Moves b c → Moves a c
Moves-trans still n = n
Moves-trans (move doc_id old doc there next m) n = move doc_id old doc there next (Moves-trans m n)

-- The status that the store has for the document.
abbrev pub IsAt : Text → DocStatus → Store → Type 0
IsAt doc_id status kv = (old : Doc) × (view kv doc_id ≡ some old) × (old.status ≡ status)

module _ {E : Type 0} where
  -- From one progress to another only the document itself was written, its record last.
  pub record IsReached (doc_id : Text) (p p' : Progress E) : Type 0 where
    pub moves : Moves p.kv p'.kv
    pub wrote : view p'.kv ≡ update_at doc_id (some (with_id doc_id p'.doc)) (view p.kv)

  pub IsReached-trans :
      (doc_id : Text) (p q r : Progress E)
      → IsReached doc_id p q
      → IsReached doc_id q r
      → IsReached doc_id p r
  IsReached-trans doc_id p q r a b = record {
    moves = Moves-trans a.moves b.moves;
    wrote =
        b.wrote
        ∙ ap (update_at doc_id (some (with_id doc_id r.doc))) a.wrote
        ∙ update_at-again doc_id (some (with_id doc_id q.doc)) (some (with_id doc_id r.doc))
            (view p.kv);
  }

  pub IsReached-IsAt :
      (doc_id : Text) (p q : Progress E) → IsReached doc_id p q → IsAt doc_id q.doc.status q.kv
  IsReached-IsAt doc_id p q a = (
    with_id doc_id q.doc,
    ap (λ f. f doc_id) a.wrote ∙ update_at-same doc_id (some (with_id doc_id q.doc)) (view p.kv),
    refl,
  )

  saved-IsReached :
      (doc_id : Text) (status : DocStatus) (doc : Doc) (p : Progress E)
      → IsAt doc_id status p.kv
      → Next status doc.status
      → IsReached doc_id p (saved doc_id doc p)
  saved-IsReached doc_id status doc p (old, there, at) next = record {
    moves = move doc_id old doc there (subst (λ s. Next s doc.status) (sym at) next) still;
    wrote = view-save doc_id doc p.kv;
  }

  -- One more write behind those before.
  saved-IsReached_after :
      (doc_id : Text) (doc : Doc) (p q : Progress E)
      → IsReached doc_id p q
      → Next q.doc.status doc.status
      → IsReached doc_id p (saved doc_id doc q)
  saved-IsReached_after doc_id doc p q a next =
      IsReached-trans doc_id p q (saved doc_id doc q) a
        (saved-IsReached doc_id q.doc.status doc q (IsReached-IsAt doc_id p q a) next)

  enter_stages-IsReached :
      (doc_id : Text) (stages : List Text) (p q : Progress E)
      → IsReached doc_id p q
      → q.doc.status ≡ processing
      → let r = enter_stages doc_id stages q in IsReached doc_id p r × (r.doc.status ≡ processing)
  unfolding enter_stages enter_stage
  enter_stages-IsReached doc_id [] p q a at = (a, at)
  enter_stages-IsReached doc_id (stage ∷ stages) p q a at =
      let doc = q.doc in
      enter_stages-IsReached doc_id stages p (enter_stage doc_id stage q)
        (saved-IsReached_after doc_id
          (record doc { metadata = record doc.metadata { memory_sub_stage = some stage } }) p q a
          (subst (λ s. Next s s) (sym at) to_stage))
        at

-- A document that is done with, of either kind.
abbrev pub IsProcessed : Doc → Type 0
IsProcessed doc =
    (doc.status ≡ processed)
    × (doc.metadata.memory_sub_stage ≡ some (codes "done"))
    × ((ids : List Text) × (doc.chunk_ids ≡ some ids) × (doc.chunk_count ≡ some (length ids)))

-- The document has failed, with the message noted.
abbrev pub IsFailedWith : Text → Doc → Type 0
IsFailedWith message doc = (doc.status ≡ failed) × (doc.metadata.error ≡ some message)

abbrev pub IsFailed : Doc → Type 0
IsFailed doc = (message : Text) × IsFailedWith message doc

-- The document after the `try` has ended: processed where nothing was raised, and failed with what
-- the exception said where something was.
abbrev pub IsConcluded : Attempt Unit → Doc → Type 0
IsConcluded end doc =
    ((end ≡ done tt) × IsProcessed doc)
    ⊎ ((message : Text) × (end ≡ failure message) × IsFailedWith message doc)

-- How the body of the `try` ends.
abbrev Ends : {E : Type 0} → Outcome E → Type 0
Ends (done _, p) = IsProcessed p.doc
Ends (failure message, p) = Next p.doc.status failed

-- The summary of one more document.
abbrev pub Counts : Text → Summary → Summary → Type 0
Counts doc_id s s' = (s' ≡ count_processed doc_id s) ⊎ (s' ≡ count_failed doc_id s)

module _ {E : Type 0} where
  end_document-Ends :
      (doc_id : Text) (indexed : Attempt (List Text)) (p q : Progress E)
      → IsReached doc_id p q
      → q.doc.status ≡ processing
      → let o = end_document doc_id indexed q in IsReached doc_id p o.1 × Ends o
  unfolding end_document finish set_status
  end_document-Ends doc_id (failure message) p q a at =
      (a, subst (λ s. Next s failed) (sym at) indexing_failed)
  end_document-Ends doc_id (done chunk_ids) p q a at = (
    saved-IsReached_after doc_id _ p q a (subst (λ s. Next s processed) (sym at) to_processed),
    (refl, refl, (chunk_ids, refl, refl)),
  )

  conclude-Counts :
      (doc_id : Text) (o : Outcome E) (p : Progress E) (s : Summary)
      → IsReached doc_id p o.1
      → Ends o
      → let (r, s') = conclude doc_id o s in
        IsReached doc_id p r × IsConcluded o.0 r.doc × Counts doc_id s s'
  unfolding conclude fail_document set_status
  conclude-Counts doc_id (done _, q) p s a ends = (a, inl (refl, ends), inl refl)
  conclude-Counts doc_id (failure message, q) p s a ends =
      (saved-IsReached_after doc_id _ p q a ends, inr (message, refl, (refl, refl)), inr refl)

module _ {E : Type 0} (worker : Worker E) where
  open worker use {hashing, rag}

  index_document-Ends :
      (doc_id : Text) (parsed : Attempt (ParseResult × List IndexChunk)) (p q : Progress E)
      → IsReached doc_id p q
      → q.doc.status ≡ parsing
      → let o = index_document worker doc_id parsed q in IsReached doc_id p o.1 × Ends o
  unfolding index_document
  index_document-Ends doc_id (failure message) p q a at =
      (a, subst (λ s. Next s failed) (sym at) parsing_failed)
  index_document-Ends doc_id (done (parsed, chunks)) p q a at =
      let first = start_processing doc_id parsed chunks q in
      let b : IsReached doc_id p first =
        unfold start_processing set_status in
        saved-IsReached_after doc_id _ p q a
          (subst (λ s. Next s processing) (sym at) to_processing) in
      let (c, at') =
        enter_stages-IsReached doc_id memory_sub_stages p first b
          (unfold start_processing set_status in refl) in
      let staged = enter_stages doc_id memory_sub_stages first in
      let (indexed, engine) = index_chunks hashing rag chunks staged.engine in
      end_document-Ends doc_id indexed p (record staged { engine = engine })
        (record { moves = c.moves; wrote = c.wrote }) at'

  try_document-Ends :
      (doc_id : Text) (p : Progress E)
      → IsAt doc_id pending p.kv
      → let o = try_document worker doc_id p in IsReached doc_id p o.1 × Ends o
  unfolding try_document
  try_document-Ends doc_id p at =
      index_document-Ends doc_id (parse_and_chunk worker doc_id (start_parsing doc_id p).doc) p
        (start_parsing doc_id p)
        (unfold start_parsing set_status in saved-IsReached doc_id pending _ p at to_parsing)
        (unfold start_parsing set_status in refl)

  pub process_document-Counts :
      (doc_id : Text) (p : Progress E) (s : Summary)
      → IsAt doc_id pending p.kv
      → let (r, s') = process_document worker doc_id p s in
        IsReached doc_id p r
        × IsConcluded (try_document worker doc_id p).0 r.doc
        × Counts doc_id s s'
  unfolding process_document
  process_document-Counts doc_id p s at =
      let (a, ends) = try_document-Ends doc_id p at in
      conclude-Counts doc_id (try_document worker doc_id p) p s a ends
