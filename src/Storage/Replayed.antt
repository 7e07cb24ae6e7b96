-- ===== src/Storage/Replayed.antt =====
-- A store of memgraphrag/storage/json_kv_impl.py is a map from keys to records.
use exeio_memgraphrag.Base.{
  List, [], ◌∷◌, Bool, true, false, Option, none, some, ◌≡◌, refl, ap, ◌∙◌, fun_ext, ite, arith,
}
use exeio_memgraphrag.Base.Dict.{get, put, pop, get-put, get-pop}
use exeio_memgraphrag.Text.Defs.{Text, Text-discrete}
use exeio_memgraphrag.Storage.JsonKv.{
  JsonKvStorage, flush, finalize, enter_batch, exit_batch, get_by_id, pop_all, delete, drop,
  put_all, upsert, Call, upsert_call, delete_call, drop_call, enter_call, exit_call, finalize_call,
  call, run,
}

module _ {V : Type 0} where
  -- What a caller reads.
  abbrev pub view : JsonKvStorage V → Text → Option V
  view kv k = get_by_id k kv

  -- A map with one key changed.
  abbrev pub update_at : Text → Option V → (Text → Option V) → Text → Option V
  update_at k v f j = ite (Text-discrete k j) v (f j)

  abbrev pub remove_all : List Text → (Text → Option V) → Text → Option V
  remove_all [] f = f
  remove_all (k ∷ keys) f = remove_all keys (update_at k none f)

  abbrev lookups : List (Text × V) → Text → Option V
  lookups items k = get Text-discrete k items

  lookups-put :
      (k : Text) (v : V) (items : List (Text × V))
      → lookups (put Text-discrete k v items) ≡ update_at k (some v) (lookups items)
  lookups-put k v items = fun_ext (λ j. get-put Text-discrete k j v items)

  lookups-pop :
      (k : Text) (items : List (Text × V))
      → lookups (pop Text-discrete k items) ≡ update_at k none (lookups items)
  lookups-pop k items = fun_ext (λ j. get-pop Text-discrete k j items)

  pop_all-cons :
      (k : Text) (keys : List Text) (items : List (Text × V))
      → (pop_all (k ∷ keys) items).0 ≡ (pop_all keys (pop Text-discrete k items)).0
  unfolding pop_all
  pop_all-cons k keys items = ground arith

  lookups-pop_all :
      (keys : List Text) (items : List (Text × V))
      → lookups (pop_all keys items).0 ≡ remove_all keys (lookups items)
  lookups-pop_all [] items = unfold pop_all in refl
  lookups-pop_all (k ∷ keys) items =
      ap lookups (pop_all-cons k keys items)
      ∙ lookups-pop_all keys (pop Text-discrete k items)
      ∙ ap (remove_all keys) (lookups-pop k items)

  -- The file is no part of what a caller reads.
  pub items-flush : (force : Bool) (kv : JsonKvStorage V) → (flush force kv).items ≡ kv.items
  unfolding flush
  items-flush force kv = ground arith

  view_of :
      (kv : JsonKvStorage V) (items : List (Text × V)) → kv.items ≡ items → view kv ≡ lookups items
  unfolding get_by_id
  view_of kv items e = ap lookups e

  items-delete :
      (keys : List Text) (kv : JsonKvStorage V) → (delete keys kv).items ≡ (pop_all keys kv.items).0
  unfolding delete flush
  items-delete keys kv = ground arith

  items-exit_batch : (kv : JsonKvStorage V) → (exit_batch kv).items ≡ kv.items
  unfolding exit_batch flush
  items-exit_batch kv = ground arith

  view-delete :
      (keys : List Text) (kv : JsonKvStorage V) → view (delete keys kv) ≡ remove_all keys (view kv)
  view-delete keys kv =
      view_of (delete keys kv) (pop_all keys kv.items).0 (items-delete keys kv)
      ∙ unfold get_by_id in lookups-pop_all keys kv.items

  module _ (with_id : Text → V → V) where
    abbrev pub assign_all : List (Text × V) → (Text → Option V) → Text → Option V
    assign_all [] f = f
    assign_all ((k, v) ∷ records) f = assign_all records (update_at k (some (with_id k v)) f)

    -- The calls on a map: a batch and the file do not show.
    abbrev pub replay : Call V → (Text → Option V) → Text → Option V
    replay (upsert_call records) f = assign_all records f
    replay (delete_call keys) f = remove_all keys f
    replay drop_call f = λ k. none
    replay enter_call f = f
    replay exit_call f = f
    replay finalize_call f = f

    abbrev pub replay_all : List (Call V) → (Text → Option V) → Text → Option V
    replay_all [] f = f
    replay_all (c ∷ calls) f = replay_all calls (replay c f)

    lookups-put_all :
        (records items : List (Text × V))
        → lookups (put_all with_id records items) ≡ assign_all records (lookups items)
    unfolding put_all
    lookups-put_all [] items = refl
    lookups-put_all ((k, v) ∷ records) items =
        lookups-put_all records (put Text-discrete k (with_id k v) items)
        ∙ ap (assign_all records) (lookups-put k (with_id k v) items)

    pub view-upsert :
        (records : List (Text × V)) (kv : JsonKvStorage V)
        → view (upsert with_id records kv) ≡ assign_all records (view kv)
    view-upsert [] kv = unfold upsert in refl
    view-upsert (r ∷ records) kv =
        view_of (upsert with_id (r ∷ records) kv) (put_all with_id (r ∷ records) kv.items) (
          unfold upsert in
          items-flush false
            (record kv { items = put_all with_id (r ∷ records) kv.items; dirty = true }))
        ∙ unfold get_by_id in lookups-put_all (r ∷ records) kv.items

    view-call : (c : Call V) (kv : JsonKvStorage V) → view (call with_id c kv) ≡ replay c (view kv)
    unfolding call get_by_id
    view-call (upsert_call records) kv = view-upsert records kv
    view-call (delete_call keys) kv = view-delete keys kv
    view-call drop_call kv =
        view_of (drop kv) []
          (unfold drop in items-flush false (record kv { items = []; dirty = true }))
    view-call enter_call kv = unfold enter_batch in view_of (enter_batch kv) kv.items refl
    view-call exit_call kv = view_of (exit_batch kv) kv.items (items-exit_batch kv)
    view-call finalize_call kv =
        view_of (finalize kv) kv.items
          (unfold finalize in items-flush true (record kv { batch_depth = 0 }))

    -- After any calls, a caller reads what the same calls make of a map from keys to records: each
    -- record under its key with that key in it, the later of two under one key, nothing under a key
    -- that was deleted; a batch, a flush and the file do not show.
    pub run-refines :
        (calls : List (Call V)) (kv : JsonKvStorage V)
        → view (run with_id calls kv) ≡ replay_all calls (view kv)
    unfolding run
    run-refines [] kv = refl
    run-refines (c ∷ calls) kv =
        run-refines calls (call with_id c kv) ∙ ap (replay_all calls) (view-call c kv)
