-- ===== src/Pipeline/Drained.antt =====
-- The loop of memgraphrag/api/routers/documents.py drains the queue, also of the documents that are
-- queued while it runs.
use exeio_memgraphrag.Base.{
  suc, List, [], ◌∷◌, true, Option, none, some, ◌≡◌, ◌≢◌, refl, sym, subst, ap, ◌∙◌, arith, inl,
  inr, ◌⊎◌, length, Bool-cases,
}
use exeio_memgraphrag.Base.Dict.{get}
use exeio_memgraphrag.Text.Defs.{Text, Text-discrete}
use exeio_memgraphrag.Storage.JsonKv.{get_by_id}
use exeio_memgraphrag.Storage.Replayed.{view}
use exeio_memgraphrag.Pipeline.Status.{
  pending, Doc, Store, with_id, save, is_status, wanted, get_docs_by_statuses,
}
use exeio_memgraphrag.Pipeline.Worker.{Worker, Summary}
use exeio_memgraphrag.Pipeline.Process.{process_pending}
use exeio_memgraphrag.Pipeline.Written.{
  IsStore, Reads, IsStore-Reads, select_docs-all, save-IsStore, view-save, update_at-same,
}
use exeio_memgraphrag.Pipeline.Moved.{Moves, still, move}
use exeio_memgraphrag.Pipeline.Settled.{
  IsSettled, process_pending-Moves, process_pending_settles, pending_status,
}
use exeio_memgraphrag.Pipeline.Drain.{
  Arrivals, save_all, arrive, after_round, drain, queued, retry, requeue_found, requeue_document,
  requeue_statuses, bad_status,
}

Moves-IsStore : {kv kv' : Store} → Moves kv kv' → IsStore kv → IsStore kv'
Moves-IsStore still u = u
Moves-IsStore {kv} (move doc_id old doc there next m) u =
    Moves-IsStore m (save-IsStore doc_id doc kv u)

-- A document that is done with is not pending.
IsSettled-status : (o : Option Doc) (doc : Doc) → IsSettled o → o ≡ some doc → doc.status ≢ pending
IsSettled-status o doc (d, e, ends) there at =
    let same : d ≡ doc = ground (arith, sym e ∙ there) in
    let status = ap (λ x. x.status) same ∙ at in
    elim ends [
      | inl done_with ↦ let no = sym status ∙ done_with.0 in cc
      | inr wrong ↦ let no = sym status ∙ wrong.1.0 in cc
    ]

queued-injective : {kv kv' : Store} → queued kv ≡ queued kv' → kv ≡ kv'
queued-injective e = cc

requeue_found-queued :
    (doc_id : Text) (found : Option Doc) (kv kv' : Store)
    → requeue_found doc_id found kv ≡ queued kv'
    → (doc : Doc) × (save doc_id (retry doc) kv ≡ kv')
unfolding requeue_found
requeue_found-queued doc_id none kv kv' e = cc
requeue_found-queued doc_id (some doc) kv kv' e = elim (Bool-cases (wanted requeue_statuses doc)) [
  | inl right ↦
      let same : queued (save doc_id (retry doc) kv) ≡ queued kv' = ground (arith, e, right) in
      (doc, queued-injective same)
  | inr wrong ↦ let no : bad_status ≡ queued kv' = ground (arith, e, wrong) in cc
]

no_pending :
    (docs : List (Text × Doc)) (f : Text → Option Doc)
    → Reads (pending ∷ []) docs f
    → ((id : Text) (doc : Doc) → f id ≡ some doc → doc.status ≢ pending)
    → docs ≡ []
no_pending [] f r none_left = refl
no_pending ((id, doc) ∷ docs) f (_, there, right, _) none_left =
    absurd (none_left id doc there (pending_status doc right))

-- A document is there and waits.
abbrev pub IsWaiting : Option Doc → Type 0
IsWaiting o = (doc : Doc) × (o ≡ some doc) × (doc.status ≡ pending)

abbrev pub ArePending : List (Text × Doc) → Type 0
ArePending [] = Unit
ArePending ((doc_id, doc) ∷ docs) = (doc.status ≡ pending) × ArePending docs

abbrev pub AreQueued : List Arrivals → Type 0
AreQueued [] = Unit
AreQueued ((first, others) ∷ later) = ArePending (first ∷ others) × AreQueued later

abbrev pub IsListed : Text → List (Text × Doc) → Type 0
IsListed id [] = ⊥
IsListed id ((doc_id, doc) ∷ docs) = (doc_id ≡ id) ⊎ IsListed id docs

-- The document is queued in some round.
abbrev pub Arrives : Text → List Arrivals → Type 0
Arrives id [] = ⊥
Arrives id ((first, others) ∷ later) = IsListed id (first ∷ others) ⊎ Arrives id later

IsWaiting-save :
    (doc_id id : Text) (doc : Doc) (kv : Store)
    → doc.status ≡ pending
    → IsWaiting (view kv id) ⊎ (doc_id ≡ id)
    → IsWaiting (view (save doc_id doc kv) id)
IsWaiting-save doc_id id doc kv at before =
    let wrote = ap (λ f. f id) (view-save doc_id doc kv) in
    elim (Text-discrete doc_id id) [
      | yes here ↦ (with_id doc_id doc, ground (arith, wrote, here), at)
      | no other ↦ elim before [
        | inl waiting ↦ subst IsWaiting (sym (ground (arith, wrote, other))) waiting
        | inr here ↦ absurd (other here)
      ]
    ]

-- Documents that are queued wait, and so do those that waited before.
IsWaiting-save_all :
    (id : Text) (docs : List (Text × Doc)) (kv : Store)
    → ArePending docs
    → IsWaiting (view kv id) ⊎ IsListed id docs
    → IsWaiting (view (save_all docs kv) id)
unfolding save_all
IsWaiting-save_all id [] kv all (inl waiting) = waiting
IsWaiting-save_all id [] kv all (inr listed) = elim listed [ ]
IsWaiting-save_all id ((doc_id, doc) ∷ docs) kv (at, all) (inl waiting) =
    IsWaiting-save_all id docs (save doc_id doc kv) all
      (inl (IsWaiting-save doc_id id doc kv at (inl waiting)))
IsWaiting-save_all id ((doc_id, doc) ∷ docs) kv (at, all) (inr (inl here)) =
    IsWaiting-save_all id docs (save doc_id doc kv) all
      (inl (IsWaiting-save doc_id id doc kv at (inr here)))
IsWaiting-save_all id ((doc_id, doc) ∷ docs) kv (at, all) (inr (inr listed)) =
    IsWaiting-save_all id docs (save doc_id doc kv) all (inr listed)

-- A document that is done with stays so until it is queued again.
IsSettled-save_all :
    (id : Text) (docs : List (Text × Doc)) (kv : Store)
    → ArePending docs
    → IsSettled (view kv id)
    → IsSettled (view (save_all docs kv) id) ⊎ IsWaiting (view (save_all docs kv) id)
unfolding save_all
IsSettled-save_all id [] kv all settled = inl settled
IsSettled-save_all id ((doc_id, doc) ∷ docs) kv (at, all) settled =
    let wrote = ap (λ f. f id) (view-save doc_id doc kv) in
    elim (Text-discrete doc_id id) [
      | yes here ↦ inr (
          IsWaiting-save_all id docs (save doc_id doc kv) all
            (inl (IsWaiting-save doc_id id doc kv at (inr here))))
      | no other ↦
          IsSettled-save_all id docs (save doc_id doc kv) all
            (subst IsSettled (sym (ground (arith, wrote, other))) settled)
    ]

save_all-IsStore : (docs : List (Text × Doc)) (kv : Store) → IsStore kv → IsStore (save_all docs kv)
unfolding save_all
save_all-IsStore [] kv u = u
save_all-IsStore ((doc_id, doc) ∷ docs) kv u =
    save_all-IsStore docs (save doc_id doc kv) (save-IsStore doc_id doc kv u)

-- The loop goes on while a document waits.
after_round-further :
    {A : Type 0} (docs : List (Text × Doc)) (id : Text) (doc : Doc) (last : A) (further : Option A)
    → get Text-discrete id docs ≡ some doc
    → after_round docs last further ≡ further
unfolding get
after_round-further [] id doc last further at = cc
after_round-further (d ∷ docs) id doc last further at = refl

IsWaiting-listed :
    (kv : Store) (id : Text)
    → IsWaiting (view kv id)
    → (doc : Doc) × (get Text-discrete id (get_docs_by_statuses (pending ∷ []) kv) ≡ some doc)
unfolding get_docs_by_statuses get_by_id
IsWaiting-listed kv id (doc, there, at) =
    let right : wanted (pending ∷ []) doc ≡ true = unfold wanted is_status in ground (arith, at) in
    (doc, select_docs-all (pending ∷ []) kv.items id doc there right)

widen : {A B C : Type 0} → A ⊎ B → A ⊎ B ⊎ C
widen (inl a) = inl a
widen (inr b) = inr (inl b)

nothing_arrives : {A B : Type 0} (id : Text) → A ⊎ B ⊎ Arrives id [] → A ⊎ B
nothing_arrives id (inl a) = inl a
nothing_arrives id (inr (inl b)) = inr b
nothing_arrives id (inr (inr listed)) = elim listed [ ]

module _ {E : Type 0} (worker : Worker E) where
  module _ (kv : Store) (engine : E) (u : IsStore kv) where
    process_pending-IsStore : IsStore (process_pending worker kv engine).0.0
    process_pending-IsStore = Moves-IsStore (process_pending-Moves worker kv engine u) u

    process_pending-none :
        (id : Text) (doc : Doc)
        → view (process_pending worker kv engine).0.0 id ≡ some doc
        → doc.status ≢ pending
    process_pending-none id doc there = elim (process_pending_settles worker kv engine u id) [
      | inl settled ↦
          IsSettled-status (view (process_pending worker kv engine).0.0 id) doc settled there
      | inr (same, idle) ↦ idle doc (sym same ∙ there)
    ]

    process_pending-waiting :
        (id : Text)
        → IsSettled (view kv id) ⊎ IsWaiting (view kv id)
        → IsSettled (view (process_pending worker kv engine).0.0 id)
    process_pending-waiting id before = elim (process_pending_settles worker kv engine u id) [
      | inl settled ↦ settled
      | inr (same, idle) ↦ elim before [
        | inl settled ↦ subst IsSettled (sym same) settled
        | inr (doc, there, at) ↦ absurd (idle doc there at)
      ]
    ]

    -- What waits or is done with behind a round, of what did so before it or was queued meanwhile.
    after_arrival :
        (docs : List (Text × Doc)) (later : List Arrivals)
        → ArePending docs
        → (id : Text)
        → IsSettled (view kv id) ⊎ IsWaiting (view kv id) ⊎ (IsListed id docs ⊎ Arrives id later)
        → let queue = save_all docs (process_pending worker kv engine).0.0 in
          IsSettled (view queue id) ⊎ IsWaiting (view queue id) ⊎ Arrives id later
    after_arrival docs later now id (inl settled) = widen (
        IsSettled-save_all id docs (process_pending worker kv engine).0.0 now
          (process_pending-waiting id (inl settled)))
    after_arrival docs later now id (inr (inl waiting)) = widen (
        IsSettled-save_all id docs (process_pending worker kv engine).0.0 now
          (process_pending-waiting id (inr waiting)))
    after_arrival docs later now id (inr (inr (inl listed))) =
        inr
          (inl (IsWaiting-save_all id docs (process_pending worker kv engine).0.0 now (inr listed)))
    after_arrival docs later now id (inr (inr (inr more))) = inr (inr more)

  -- What the loop returns, and that it has settled what waited before it.
  abbrev Drains : List Arrivals → Store → E → (Store × E) × Summary → Type 0
  Drains arrivals kv engine last =
      (drain worker (suc (length arrivals)) arrivals kv engine ≡ some last)
      × ((id : Text) (doc : Doc) → view last.0.0 id ≡ some doc → doc.status ≢ pending)
      × ((id : Text)
          → IsSettled (view kv id) ⊎ IsWaiting (view kv id) ⊎ Arrives id arrivals
          → IsSettled (view last.0.0 id))

  drain-Drains :
      (arrivals : List Arrivals) (kv : Store) (engine : E)
      → IsStore kv
      → AreQueued arrivals
      → (last : (Store × E) × Summary) × Drains arrivals kv engine last
  unfolding drain arrive
  drain-Drains [] kv engine u all =
      let last = process_pending worker kv engine in
      let idle = process_pending-none kv engine u in
      let empty =
        no_pending (get_docs_by_statuses (pending ∷ []) last.0.0) (view last.0.0)
          (IsStore-Reads last.0.0 (pending ∷ []) (process_pending-IsStore kv engine u)) idle in
      (
        last,
        (
          ap (λ docs. after_round docs last none) empty,
          idle,
          λ id before. process_pending-waiting kv engine u id (nothing_arrives id before),
        ),
      )
  drain-Drains (((first, doc), others) ∷ later) kv engine u (now, all) =
      let ((kv', engine'), summary) = process_pending worker kv engine in
      let docs = (first, doc) ∷ others in
      let queue = save_all docs kv' in
      let u' = save_all-IsStore docs kv' (process_pending-IsStore kv engine u) in
      let (last, (returns, idle, settled)) = drain-Drains later queue engine' u' all in
      let (d, listed) =
        IsWaiting-listed queue first (IsWaiting-save_all first docs kv' now (inr (inl refl))) in
      (
        last,
        (
          after_round-further (get_docs_by_statuses (pending ∷ []) queue) first d
                ((queue, engine'), summary) (drain worker (suc (length later)) later queue engine')
                listed
              ∙ returns,
          idle,
          λ id before. settled id (after_arrival kv engine u docs later now id before),
        ),
      )

  -- The loop that drains the queue, on a store that is a dictionary and with pending documents
  -- queued while each of its first rounds runs, one at least in each, ends with the first round in
  -- which none is queued: then no document is pending, and every document that was pending at the
  -- start or was queued meanwhile is processed or has failed.
  pub drain-IsSettled :
      (arrivals : List Arrivals) (kv : Store) (engine : E)
      → IsStore kv
      → AreQueued arrivals
      → (last : (Store × E) × Summary) × (drain worker (suc (length arrivals)) arrivals kv engine
          ≡ some last)
        × ((id : Text) (doc : Doc) → view last.0.0 id ≡ some doc → doc.status ≢ pending)
        × ((id : Text)
            → IsWaiting (view kv id) ⊎ Arrives id arrivals
            → IsSettled (view last.0.0 id))
  drain-IsSettled arrivals kv engine u all =
      let (last, (returns, idle, settled)) = drain-Drains arrivals kv engine u all in
      (last, returns, idle, λ id before. settled id (inr before))

  -- In a store that is a dictionary, a document that is queued again is pending with no error noted, and when the worker returns it is
  -- processed or has failed.
  pub requeue_document-IsSettled :
      (doc_id : Text) (kv kv' : Store) (engine : E)
      → IsStore kv
      → requeue_document doc_id kv ≡ queued kv'
      → ((doc : Doc) × (view kv' doc_id ≡ some doc)
          × (doc.status ≡ pending)
          × (doc.metadata.error ≡ none))
        × IsSettled (view (process_pending worker kv' engine).0.0 doc_id)
  requeue_document-IsSettled doc_id kv kv' engine u e =
      let (doc, same) =
        requeue_found-queued doc_id (view kv doc_id) kv kv' (unfold requeue_document in e) in
      let wrote =
        ap (λ s. view s doc_id) (sym same) ∙ ap (λ f. f doc_id) (view-save doc_id (retry doc) kv) in
      let there = wrote ∙ update_at-same doc_id (some (with_id doc_id (retry doc))) (view kv) in
      let u' = subst IsStore same (save-IsStore doc_id (retry doc) kv u) in
      (
        (with_id doc_id (retry doc), there, unfold retry in refl, unfold retry in refl),
        elim (process_pending_settles worker kv' engine u' doc_id) [
          | inl settled ↦ settled
          | inr (_, idle) ↦ absurd (idle (with_id doc_id (retry doc)) there (unfold retry in refl))
        ],
      )
