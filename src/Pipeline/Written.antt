-- ===== src/Pipeline/Written.antt =====
-- What a write to doc-status changes for a reader (memgraphrag/pipeline.py).
use exeio_memgraphrag.Base.{
  List, [], ◌∷◌, Option, none, some, ◌≡◌, refl, sym, subst, fun_ext, true, false, Bool-cases, inl,
  inr, arith,
}
use exeio_memgraphrag.Base.Dict.{get, IsDict, put-IsDict}
use exeio_memgraphrag.Text.Defs.{Text, Text-discrete}
use exeio_memgraphrag.Storage.JsonKv.{put_all, upsert, get_by_id}
use exeio_memgraphrag.Storage.Replayed.{view, update_at, view-upsert, items-flush}
use exeio_memgraphrag.Pipeline.Status.{
  DocStatus, Doc, Store, with_id, save, select_docs, wanted, get_docs_by_statuses,
}

-- The store is a dictionary.
abbrev pub IsStore : Store → Type 0
IsStore kv = IsDict Text-discrete kv.items

pub view-save :
    (doc_id : Text) (doc : Doc) (kv : Store)
    → view (save doc_id doc kv) ≡ update_at doc_id (some (with_id doc_id doc)) (view kv)
unfolding save
view-save doc_id doc kv = view-upsert with_id ((doc_id, doc) ∷ []) kv

pub save-IsStore :
    (doc_id : Text) (doc : Doc) (kv : Store) → IsStore kv → IsStore (save doc_id doc kv)
save-IsStore doc_id doc kv u =
    let next = put-IsDict Text-discrete doc_id (with_id doc_id doc) kv.items u in
    unfold save upsert put_all in subst (IsDict Text-discrete) (sym (items-flush false _)) next

pub update_at-again :
    (doc_id : Text) (a b : Option Doc) (f : Text → Option Doc)
    → update_at doc_id b (update_at doc_id a f) ≡ update_at doc_id b f
update_at-again doc_id a b f = fun_ext (λ j. ground arith)

pub update_at-same :
    (doc_id : Text) (a : Option Doc) (f : Text → Option Doc) → update_at doc_id a f doc_id ≡ a
update_at-same doc_id a f = ground arith

-- The listed documents are what a reader finds under their identifiers, each of them once, and each
-- of a wanted status.
abbrev pub Reads : List DocStatus → List (Text × Doc) → (Text → Option Doc) → Type 0
Reads statuses [] f = Unit
Reads statuses ((doc_id, doc) ∷ docs) f =
    (get Text-discrete doc_id docs ≡ none)
    × (f doc_id ≡ some doc)
    × (wanted statuses doc ≡ true)
    × Reads statuses docs f

-- A change of a document that is not listed.
pub update_at-Reads :
    (statuses : List DocStatus) (docs : List (Text × Doc)) (f : Text → Option Doc) (doc_id : Text)
    (v : Option Doc)
    → get Text-discrete doc_id docs ≡ none
    → Reads statuses docs f
    → Reads statuses docs (update_at doc_id v f)
unfolding get
update_at-Reads statuses [] f doc_id v out r = tt
update_at-Reads statuses ((k, doc) ∷ docs) f doc_id v out (new, there, right, r) =
    elim (Text-discrete k doc_id) [
      | yes same ↦ let no : ◌≡◌ {A = Option Doc} (some doc) none = ground (arith, out, same) in cc
      | no other ↦ (
        new,
        ground (arith, there),
        right,
        update_at-Reads statuses docs f doc_id v (ground (arith, out, other)) r,
      )
    ]

-- What a document of the list is in the store.
pub Reads-get :
    (statuses : List DocStatus) (docs : List (Text × Doc)) (f : Text → Option Doc) (id : Text)
    (doc : Doc)
    → Reads statuses docs f
    → get Text-discrete id docs ≡ some doc
    → (f id ≡ some doc) × (wanted statuses doc ≡ true)
unfolding get
Reads-get statuses [] f id doc r e = cc
Reads-get statuses ((doc_id, d) ∷ docs) f id doc (new, there, right, r) e =
    elim (Text-discrete doc_id id) [
      | yes here ↦ (ground (arith, e, here, there), ground (arith, e, here, right))
      | no other ↦ Reads-get statuses docs f id doc r (ground (arith, e, other))
    ]

get-select_docs :
    (statuses : List DocStatus) (items : List (Text × Doc)) (k : Text)
    → get Text-discrete k items ≡ none
    → get Text-discrete k (select_docs statuses items) ≡ none
unfolding get select_docs
get-select_docs statuses [] k out = refl
get-select_docs statuses ((j, doc) ∷ items) k out = ground (arith, get-select_docs statuses items k)

pub select_docs-Reads :
    (statuses : List DocStatus) (items : List (Text × Doc))
    → IsDict Text-discrete items
    → Reads statuses (select_docs statuses items) (λ k. get Text-discrete k items)
unfolding select_docs get
select_docs-Reads statuses [] u = tt
select_docs-Reads statuses ((k, doc) ∷ items) (new, u) =
    let r =
      update_at-Reads statuses (select_docs statuses items) (λ j. get Text-discrete j items) k
        (some doc) (get-select_docs statuses items k new) (select_docs-Reads statuses items u) in
    elim (Bool-cases (wanted statuses doc)) [
      | inl right ↦ rw right (
        get-select_docs statuses items k new,
        update_at-same k (some doc) (λ j. get Text-discrete j items),
        right,
        r,
      )
      | inr wrong ↦ rw wrong r
    ]

-- A document of a wanted status is listed.
pub select_docs-all :
    (statuses : List DocStatus) (items : List (Text × Doc)) (k : Text) (doc : Doc)
    → get Text-discrete k items ≡ some doc
    → wanted statuses doc ≡ true
    → get Text-discrete k (select_docs statuses items) ≡ some doc
unfolding select_docs get
select_docs-all statuses [] k doc there right = cc
select_docs-all statuses ((j, d) ∷ items) k doc there right =
    ground (arith, select_docs-all statuses items k doc)

pub IsStore-Reads :
    (kv : Store) (statuses : List DocStatus)
    → IsStore kv
    → Reads statuses (get_docs_by_statuses statuses kv) (view kv)
unfolding get_docs_by_statuses get_by_id
IsStore-Reads kv statuses u = select_docs-Reads statuses kv.items u
