-- ===== src/Pipeline/Recovered.antt =====
-- A start after a crash (memgraphrag/pipeline.py): `reset_interrupted_documents`, and
-- `process_pending` behind it.
use exeio_memgraphrag.Base.{
  List, [], ◌∷◌, Option, none, some, ◌≡◌, ◌≢◌, refl, sym, subst, ap, ◌∙◌, true, false, Bool-cases,
  inl, inr, ◌⊎◌, arith, if◌then◌else◌, Option-cases,
}
use mathlib.Core.Option
use exeio_memgraphrag.Base.Dict.{get}
use exeio_memgraphrag.Text.Defs.{Text, Text-discrete}
use exeio_memgraphrag.Storage.JsonKv.{get_by_id}
use exeio_memgraphrag.Storage.Replayed.{view, update_at}
use exeio_memgraphrag.Pipeline.Status.{
  DocStatus, status_value, pending, parsing, processing, processed, failed, Doc, Store, with_id,
  save, is_status, wanted, select_docs, get_docs_by_statuses, doc_ids_of, recover, requeue,
  interrupted_statuses, reset_interrupted_documents,
}
use exeio_memgraphrag.Pipeline.Process.{process_pending}
use exeio_memgraphrag.Pipeline.Worker.{Worker}
use exeio_memgraphrag.Pipeline.Written.{
  Reads-get, IsStore, Reads, view-save, save-IsStore, update_at-Reads, IsStore-Reads,
  select_docs-all,
}
use exeio_memgraphrag.Pipeline.Settled.{process_pending_settles}

-- What the start makes of a document.
abbrev pub requeued : Text → Doc → Doc
requeued id doc =
    if wanted interrupted_statuses doc
    then record doc {
      id = some id;
      status = pending;
      metadata = record doc.metadata {
        memory_sub_stage = none;
        recovered_from = some (status_value doc.status);
      };
      chunk_ids = none;
    }
    else doc

abbrev in_list : List (Text × Doc) → Text → Option Doc → Option Doc
in_list docs id old = elim (get Text-discrete id docs) [
  | none ↦ old
  | some doc ↦ some (with_id id (recover doc))
]

requeue-IsStore : (docs : List (Text × Doc)) (kv : Store) → IsStore kv → IsStore (requeue docs kv)
unfolding requeue
requeue-IsStore [] kv u = u
requeue-IsStore ((doc_id, doc) ∷ docs) kv u =
    requeue-IsStore docs (save doc_id (recover doc) kv) (save-IsStore doc_id (recover doc) kv u)

in_list-cons :
    (docs : List (Text × Doc)) (doc_id id : Text) (doc : Doc) (f : Text → Option Doc)
    → get Text-discrete doc_id docs ≡ none
    → in_list docs id (update_at doc_id (some (with_id doc_id (recover doc))) f id)
      ≡ in_list ((doc_id, doc) ∷ docs) id (f id)
unfolding get
in_list-cons docs doc_id id doc f new = elim (Text-discrete doc_id id) [
  | yes here ↦ ground (arith, new, here)
  | no other ↦ ground (arith, other)
]

requeue-cons :
    (doc_id : Text) (doc : Doc) (docs : List (Text × Doc)) (kv : Store)
    → requeue ((doc_id, doc) ∷ docs) kv ≡ requeue docs (save doc_id (recover doc) kv)
unfolding requeue
requeue-cons doc_id doc docs kv = refl

view-requeue :
    (docs : List (Text × Doc)) (kv : Store) (id : Text)
    → Reads interrupted_statuses docs (view kv)
    → view (requeue docs kv) id ≡ in_list docs id (view kv id)
view-requeue [] kv id r = unfold requeue get in refl
view-requeue ((doc_id, doc) ∷ docs) kv id (new, there, right, r) =
    let kv' = save doc_id (recover doc) kv in
    let wrote = view-save doc_id (recover doc) kv in
    let last = with_id doc_id (recover doc) in
    ap (λ s. view s id) (requeue-cons doc_id doc docs kv)
    ∙ view-requeue docs kv' id (
        subst (Reads interrupted_statuses docs) (sym wrote)
          (update_at-Reads interrupted_statuses docs (view kv) doc_id (some last) new r))
    ∙ ap (λ f. in_list docs id (f id)) wrote
    ∙ in_list-cons docs doc_id id doc (view kv) new

in_list-requeued :
    (kv : Store) (id : Text)
    → IsStore kv
    → in_list (get_docs_by_statuses interrupted_statuses kv) id (view kv id)
      ≡ Option.map (requeued id) (view kv id)
unfolding get get_by_id select_docs get_docs_by_statuses recover
in_list-requeued kv id u =
    let docs = get_docs_by_statuses interrupted_statuses kv in
    let r = IsStore-Reads kv interrupted_statuses u in
    elim (Option-cases (get Text-discrete id docs)) [
      | inr (doc, e) ↦
          let (there, right) = Reads-get interrupted_statuses docs (view kv) id doc r e in
          ground (arith, e, there, right)
      | inl out ↦ elim (Option-cases (view kv id)) [
        | inl gone ↦ ground (arith, out, gone)
        | inr (doc, there) ↦ elim (Bool-cases (wanted interrupted_statuses doc)) [
          | inl right ↦
              let no : ◌≡◌ {A = Option Doc} (some doc) none =
                sym (select_docs-all interrupted_statuses kv.items id doc there right) ∙ out in
              cc
          | inr wrong ↦ ground (arith, out, there, wrong)
        ]
      ]
    ]

-- In a store that is a dictionary, the start moves each document that was parsing or processing back
-- to pending, with no chunk identifiers and the status that it had noted; every other document is
-- as it was. It returns the documents that it moved, in the order of the store.
pub reset_interrupted_documents-view :
    (kv : Store)
    → IsStore kv
    → let (ids, kv') = reset_interrupted_documents kv in
      ((id : Text) → view kv' id ≡ Option.map (requeued id) (view kv id))
      × (ids ≡ doc_ids_of (get_docs_by_statuses interrupted_statuses kv))
      × IsStore kv'
unfolding reset_interrupted_documents
reset_interrupted_documents-view kv u =
    let docs = get_docs_by_statuses interrupted_statuses kv in
    (
      λ id.
          view-requeue docs kv id (IsStore-Reads kv interrupted_statuses u)
          ∙ in_list-requeued kv id u,
      refl,
      requeue-IsStore docs kv u,
    )

status-cases :
    (s : DocStatus) (doc : Doc)
    → doc.status ≡ s
    → wanted interrupted_statuses doc ≡ false
    → doc.status ≢ pending
    → (doc.status ≡ processed) ⊎ (doc.status ≡ failed)
unfolding wanted is_status
status-cases pending doc at idle started = absurd (started at)
status-cases parsing doc at idle started = let no : true ≡ false = ground (arith, idle, at) in cc
status-cases processing doc at idle started = let no : true ≡ false = ground (arith, idle, at) in cc
status-cases processed doc at idle started = inl at
status-cases failed doc at idle started = inr at

-- A document that the worker left as it was, behind the start.
idle-cases :
    (id : Text) (o : Option Doc) (doc : Doc)
    → Option.map (requeued id) o ≡ some doc
    → doc.status ≢ pending
    → (doc.status ≡ processed) ⊎ (doc.status ≡ failed)
idle-cases id none doc e started = cc
idle-cases id (some d) doc e started = elim (Bool-cases (wanted interrupted_statuses d)) [
  | inl right ↦ absurd (started (ground (arith, e, right)))
  | inr wrong ↦
      let same : d ≡ doc = ground (arith, e, wrong) in
      status-cases doc.status doc refl (ap (wanted interrupted_statuses) (sym same) ∙ wrong) started
]

module _ {E : Type 0} (worker : Worker E) where
  -- Whatever a crash left in a store that is a dictionary: after the start and one run of the worker
  -- each document of the store is processed or has failed.
  pub process_pending-reset :
      (kv : Store) (engine : E)
      → IsStore kv
      → let kv' = (reset_interrupted_documents kv).1 in
        (id : Text) (doc : Doc)
        → view (process_pending worker kv' engine).0.0 id ≡ some doc
        → (doc.status ≡ processed) ⊎ (doc.status ≡ failed)
  process_pending-reset kv engine u id doc there =
      let (moved, _, u') = reset_interrupted_documents-view kv u in
      elim (process_pending_settles worker (reset_interrupted_documents kv).1 engine u' id) [
        | inl (d, e, ends) ↦
            let same : d ≡ doc = ground (arith, sym e ∙ there) in
            elim ends [
              | inl done_with ↦ inl (ap (λ x. x.status) (sym same) ∙ done_with.0)
              | inr wrong ↦ inr (ap (λ x. x.status) (sym same) ∙ wrong.1.0)
            ]
        | inr (same, started) ↦
            let now = sym same ∙ there in
            idle-cases id (view kv id) doc (sym (moved id) ∙ now) (started doc now)
      ]
