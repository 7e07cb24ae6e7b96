-- ===== src/Storage/Tests.antt =====
-- A store of two records, with texts as records.
use exeio_memgraphrag.Base.{
  List, [], ◌∷◌, ◌++◌, false, ◌≡◌, refl, ok, some, none, ℕ_discrete, raise, corrupt_kv_file_error,
}
use exeio_memgraphrag.Base.Dict.{get, put, pop}
use exeio_memgraphrag.Text.Defs.{Text, Text-discrete, codes}
use exeio_memgraphrag.Storage.JsonKv.{
  JsonKvStorage, restarted, json, unreadable, initialize, flush, enter_batch, exit_batch, get_by_id,
  get_by_ids, filter_keys, pop_all, delete, put_all, upsert, Call, upsert_call, delete_call,
  drop_call, enter_call, call, run,
}
use exeio_memgraphrag.Storage.Durable.{IsDurable, initialize-restarted}
use exeio_memgraphrag.Storage.Replayed.{view, replay_all, run-refines}
use exeio_memgraphrag.Storage.Batched.{run-batch}

abbrev with_id : Text → Text → Text
with_id k v = v ++ codes "@" ++ k

abbrev store : JsonKvStorage Text
store = record {
  items = (codes "a", codes "x") ∷ [];
  dirty = false;
  batch_depth = 0;
  disk = json ((codes "a", codes "x") ∷ []);
}

abbrev writes : List (Call Text)
writes = upsert_call ((codes "b", codes "y") ∷ []) ∷ delete_call (codes "a" ∷ []) ∷ []

store-IsDurable : IsDurable store
store-IsDurable = record { saved = λ h. refl; settled = λ h. refl }

run_saves : (run with_id writes store).disk ≡ json ((codes "b", codes "y@b") ∷ [])
unfolding run call upsert put_all put delete pop_all pop get flush Text-discrete ℕ_discrete
run_saves = refl

batch_waits : (run with_id (enter_call ∷ writes) store).disk ≡ store.disk
unfolding run call upsert put_all put delete pop_all pop get flush Text-discrete ℕ_discrete
    enter_batch
batch_waits = refl

reads :
    (get_by_ids (codes "b" ∷ codes "a" ∷ []) store ≡ none ∷ some (codes "x") ∷ [])
    × (filter_keys (codes "b" ∷ codes "a" ∷ []) store ≡ codes "b" ∷ [])
unfolding get_by_ids filter_keys get_by_id get Text-discrete ℕ_discrete
reads = (refl, refl)

damaged : initialize false (record store { disk = unreadable }) ≡ raise corrupt_kv_file_error
unfolding initialize
damaged = refl

initialize-restarted_example :
    let after = run with_id writes store in
    initialize false (restarted after) ≡ ok (record (restarted after) { items = after.items })
unfolding run call upsert put_all put delete pop_all pop get flush Text-discrete ℕ_discrete
initialize-restarted_example = initialize-restarted with_id false writes store store-IsDurable refl

run-refines_example :
    view (run with_id (drop_call ∷ writes) store)
    ≡ replay_all with_id (drop_call ∷ writes) (view store)
run-refines_example = run-refines with_id (drop_call ∷ writes) store

run-batch_example :
    let inside = run with_id writes (enter_batch store) in
    (inside.disk ≡ store.disk) × (exit_batch inside ≡ run with_id writes store)
run-batch_example = run-batch with_id writes store (refl, (refl, tt)) refl refl
