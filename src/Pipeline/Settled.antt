-- ===== src/Pipeline/Settled.antt =====
-- What `process_pending` of memgraphrag/pipeline.py leaves of the documents, on its own and behind
-- `reset_interrupted_documents`.
use exeio_memgraphrag.Base.{
  ◌+◌, List, [], ◌∷◌, ◌++◌, Option, none, some, ◌≡◌, ◌≢◌, refl, sym, subst, ap, ◌∙◌, true, inl, inr,
  ◌⊎◌, arith, length, append-nil, append_assoc,
}
use exeio_memgraphrag.Base.Dict.{get}
use exeio_memgraphrag.Text.Defs.{Text, Text-discrete}
use exeio_memgraphrag.Storage.JsonKv.{get_by_id}
use exeio_memgraphrag.Storage.Replayed.{view, update_at}
use exeio_memgraphrag.Pipeline.Status.{
  pending, Doc, Store, with_id, is_status, wanted, get_docs_by_statuses, doc_ids_of,
}
use exeio_memgraphrag.Pipeline.Process.{
  Progress, try_document, process_document, process_documents, process_pending,
}
use exeio_memgraphrag.Pipeline.Worker.{Worker, Summary}
use exeio_memgraphrag.Pipeline.Written.{
  IsStore, Reads, update_at-Reads, IsStore-Reads, Reads-get, select_docs-all,
}
use exeio_memgraphrag.Pipeline.Moved.{
  Moves, still, Moves-trans, IsProcessed, IsFailed, IsConcluded, Counts, process_document-Counts,
}

-- The summary that a run starts with.
abbrev pub no_summary : Summary
no_summary = record { processed = 0; failed = 0; doc_ids = [] }

-- The document is done with.
abbrev pub IsSettled : Option Doc → Type 0
IsSettled o = (doc : Doc) × (o ≡ some doc) × (IsProcessed doc ⊎ IsFailed doc)

-- What the worker makes of a document of its list: it is concluded the way its own `try` ends, which
-- starts with its record and with the store and the engine that the documents before it leave.
abbrev pub Concludes :
    {E : Type 0}
    → Worker E
    → List (Text × Doc)
    → Store
    → E
    → Summary
    → Text
    → Doc
    → Option Doc
    → Type 0
Concludes worker docs kv engine s id doc o =
    (before : List (Text × Doc)) × (behind : List (Text × Doc)) × (docs
      ≡ before ++ (id, doc) ∷ behind)
    × (let (reached, _) = process_documents worker before kv engine s in
        let p : Progress _ = record { doc = doc; kv = reached.0; engine = reached.1 } in
        (last : Doc) × (o ≡ some last) × IsConcluded (try_document worker id p).0 last)

-- What the worker makes of a text's record: concluded if the list has it, else as it was.
abbrev pub IsHandled :
    {E : Type 0}
    → Worker E
    → List (Text × Doc)
    → Store
    → E
    → Summary
    → Text
    → Option Doc
    → Option Doc
    → Type 0
IsHandled worker docs kv engine s id o o' =
    ((doc : Doc) × (get Text-discrete id docs ≡ some doc)
      × Concludes worker docs kv engine s id doc o')
    ⊎ ((o' ≡ o) × (get Text-discrete id docs ≡ none))

-- The summary of a run over the list.
abbrev pub Sums : List (Text × Doc) → Summary → Summary → Type 0
Sums docs s s' =
    (s'.processed + s'.failed ≡ s.processed + s.failed + length docs)
    × (s'.doc_ids ≡ s.doc_ids ++ doc_ids_of docs)

pub pending_status : (doc : Doc) → wanted (pending ∷ []) doc ≡ true → doc.status ≡ pending
unfolding wanted is_status
pending_status doc right = ground arith

Concludes-IsSettled :
    {E : Type 0} (worker : Worker E) (docs : List (Text × Doc)) (kv : Store) (engine : E)
    (s : Summary) (id : Text) (doc : Doc) (o : Option Doc)
    → Concludes worker docs kv engine s id doc o
    → IsSettled o
Concludes-IsSettled worker docs kv engine s id doc o (before, behind, e, (last, at, inl (_, ok))) =
    (last, at, inl ok)
Concludes-IsSettled worker docs kv engine s id doc o
      (before, behind, e, (last, at, inr (message, _, wrong))) =
    (last, at, inr (message, wrong))

Sums-cons :
    (doc_id : Text) (doc : Doc) (docs : List (Text × Doc)) (s s' s'' : Summary)
    → Counts doc_id s s'
    → Sums docs s' s''
    → Sums ((doc_id, doc) ∷ docs) s s''
Sums-cons doc_id doc docs s s' s'' (inl e) (n, ids) = (
  omega (arith, n, ap (λ t. t.processed + t.failed) e),
  ids
      ∙ ap (λ t. t.doc_ids ++ doc_ids_of docs) e
      ∙ append_assoc s.doc_ids (doc_id ∷ []) (doc_ids_of docs),
)
Sums-cons doc_id doc docs s s' s'' (inr e) (n, ids) = (
  omega (arith, n, ap (λ t. t.processed + t.failed) e),
  ids
      ∙ ap (λ t. t.doc_ids ++ doc_ids_of docs) e
      ∙ append_assoc s.doc_ids (doc_id ∷ []) (doc_ids_of docs),
)

-- One more document in front of the list.
module _ {E : Type 0} (worker : Worker E) (doc_id : Text) (doc : Doc) where
  Concludes-cons :
      (docs : List (Text × Doc)) (kv : Store) (engine : E) (s : Summary) (id : Text) (d : Doc)
      (o : Option Doc)
      → let p : Progress E = record { doc = doc; kv = kv; engine = engine } in
        let (q, s') = process_document worker doc_id p s in
        Concludes worker docs q.kv q.engine s' id d o
        → Concludes worker ((doc_id, doc) ∷ docs) kv engine s id d o
  unfolding process_documents
  Concludes-cons docs kv engine s id d o (before, behind, e, ends) =
      ((doc_id, doc) ∷ before, behind, ap (λ ds. (doc_id, doc) ∷ ds) e, ends)

  IsHandled-cons :
      (docs : List (Text × Doc)) (kv : Store) (engine : E) (s : Summary) (id : Text) (last : Doc)
      (f h g : Text → Option Doc)
      → get Text-discrete doc_id docs ≡ none
      → h ≡ update_at doc_id (some last) f
      → Concludes worker ((doc_id, doc) ∷ docs) kv engine s doc_id doc (some last)
      → let p : Progress E = record { doc = doc; kv = kv; engine = engine } in
        let (q, s') = process_document worker doc_id p s in
        IsHandled worker docs q.kv q.engine s' id (h id) (g id)
        → IsHandled worker ((doc_id, doc) ∷ docs) kv engine s id (f id) (g id)
  unfolding get
  IsHandled-cons docs kv engine s id last f h g new wrote ends (inl (d, at, rest)) =
      elim (Text-discrete doc_id id) [
        | yes here ↦
            let no : ◌≡◌ {A = Option Doc} none (some d) =
              sym new ∙ ap (λ i. get Text-discrete i docs) here ∙ at in
            cc
        | no other ↦
            inl (d, ground (arith, at, other), Concludes-cons docs kv engine s id d (g id) rest)
      ]
  IsHandled-cons docs kv engine s id last f h g new wrote ends (inr (same, out)) =
      let now = same ∙ ap (λ m. m id) wrote in
      let all = (doc_id, doc) ∷ docs in
      elim (Text-discrete doc_id id) [
        | yes here ↦
            let at : some last ≡ g id = sym (ground (arith, now, here)) in
            inl (
              doc,
              ground (arith, here),
              subst (λ i. Concludes worker all kv engine s i doc (g id)) here
                  (subst (Concludes worker all kv engine s doc_id doc) at ends),
            )
        | no other ↦ inr (ground (arith, now, other), ground (arith, out, other))
      ]

pub unlisted_not_pending :
    (kv : Store) (id : Text)
    → get Text-discrete id (get_docs_by_statuses (pending ∷ []) kv) ≡ none
    → (doc : Doc) → view kv id ≡ some doc
    → doc.status ≢ pending
unfolding get_docs_by_statuses get_by_id
unlisted_not_pending kv id out doc there at =
    let right : wanted (pending ∷ []) doc ≡ true = unfold wanted is_status in ground (arith, at) in
    let no : ◌≡◌ {A = Option Doc} (some doc) none =
      sym (select_docs-all (pending ∷ []) kv.items id doc there right) ∙ out in
    cc

module _ {E : Type 0} (worker : Worker E) where
  process_documents-IsHandled :
      (docs : List (Text × Doc)) (kv : Store) (engine : E) (s : Summary)
      → Reads (pending ∷ []) docs (view kv)
      → let ((kv', _), s') = process_documents worker docs kv engine s in
        Moves kv kv'
        × ((id : Text) → IsHandled worker docs kv engine s id (view kv id) (view kv' id))
        × Sums docs s s'
  unfolding process_documents get
  process_documents-IsHandled [] kv engine s r =
      (still, λ id. inr (refl, refl), (omega arith, sym (append-nil s.doc_ids)))
  process_documents-IsHandled ((doc_id, doc) ∷ docs) kv engine s (new, there, right, r) =
      let p : Progress E = record { doc = doc; kv = kv; engine = engine } in
      let (q, s') = process_document worker doc_id p s in
      let (a, ends, counts) =
        process_document-Counts worker doc_id p s (doc, there, pending_status doc right) in
      let (moves, handled, sums) = process_documents-IsHandled docs q.kv q.engine s' (
        subst (Reads (pending ∷ []) docs) (sym a.wrote) (
          update_at-Reads (pending ∷ []) docs (view kv) doc_id (some (with_id doc_id q.doc)) new
            r)) in
      let after = process_documents worker docs q.kv q.engine s' in
      (
        Moves-trans a.moves moves,
        λ id.
            IsHandled-cons worker doc_id doc docs kv engine s id (with_id doc_id q.doc) (view kv)
              (view q.kv) (view after.0.0) new a.wrote
              ([], docs, refl, (with_id doc_id q.doc, refl, ends)) (handled id),
        Sums-cons doc_id doc docs s s' after.1 counts sums,
      )

  pub process_pending-Moves :
      (kv : Store) (engine : E) → IsStore kv → Moves kv (process_pending worker kv engine).0.0
  unfolding process_pending
  process_pending-Moves kv engine u =
      (process_documents-IsHandled (get_docs_by_statuses (pending ∷ []) kv) kv engine no_summary
        (IsStore-Reads kv (pending ∷ []) u)).0

  -- In a store that is a dictionary, when the worker returns, each document that was pending is
  -- processed, with its chunks counted, if its `try` raised nothing, and has failed, with what the
  -- exception said as its error, if it raised, where the `try` starts with the record as it was and
  -- with the store and the engine as the documents before it left them; every document that was not
  -- pending is as it was. The summary lists the pending documents in the order of the store, and the
  -- numbers of those processed and failed are together the number of them.
  pub process_pending-IsSettled :
      (kv : Store) (engine : E)
      → IsStore kv
      → let ((kv', _), s) = process_pending worker kv engine in
        let docs = get_docs_by_statuses (pending ∷ []) kv in
        ((id : Text)
          → ((doc : Doc) × (view kv id ≡ some doc)
              × (doc.status ≡ pending)
              × Concludes worker docs kv engine no_summary id doc (view kv' id))
            ⊎ ((view kv' id ≡ view kv id)
                × ((doc : Doc) → view kv id ≡ some doc → doc.status ≢ pending)))
        × (s.doc_ids ≡ doc_ids_of docs)
        × (s.processed + s.failed ≡ length docs)
  unfolding process_pending
  process_pending-IsSettled kv engine u =
      let docs = get_docs_by_statuses (pending ∷ []) kv in
      let r = IsStore-Reads kv (pending ∷ []) u in
      let (_, handled, (n, ids)) = process_documents-IsHandled docs kv engine no_summary r in
      (
        λ id. elim (handled id) [
          | inl (doc, listed, ends) ↦
              let (there, right) = Reads-get (pending ∷ []) docs (view kv) id doc r listed in
              inl (doc, there, pending_status doc right, ends)
          | inr (same, out) ↦ inr (same, unlisted_not_pending kv id out)
        ],
        ids,
        omega (arith, n),
      )

  -- The same, less how each `try` ended.
  pub process_pending_settles :
      (kv : Store) (engine : E)
      → IsStore kv
      → (id : Text)
      → let kv' = (process_pending worker kv engine).0.0 in
        IsSettled (view kv' id)
        ⊎ ((view kv' id ≡ view kv id)
            × ((doc : Doc) → view kv id ≡ some doc → doc.status ≢ pending))
  process_pending_settles kv engine u id =
      let docs = get_docs_by_statuses (pending ∷ []) kv in
      let (handled, _, _) = process_pending-IsSettled kv engine u in
      elim (handled id) [
        | inl (doc, there, at, ends) ↦ inl (
            Concludes-IsSettled worker docs kv engine no_summary id doc
              (view (process_pending worker kv engine).0.0 id) ends)
        | inr idle ↦ inr idle
      ]
