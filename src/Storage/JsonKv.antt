-- ===== src/Storage/JsonKv.antt =====
-- memgraphrag/storage/json_kv_impl.py. The coroutines hold the lock while they work, so a run of the
-- store is a list of calls, those of several coroutines in any order. A write of the file is one
-- step, as `os.replace` makes it; JSON gives back what was written.
use exeio_memgraphrag.Base.{
  ℕ, ◌+◌, ◌-◌, List, [], ◌∷◌, Bool, true, false, ◌&&◌, not, if◌then◌else◌, ltb, ◌==◌, map, Option,
  none, some, Result, ok, raise, corrupt_kv_file_error,
}
use exeio_memgraphrag.Base.Dict.{get, put, pop}
use exeio_memgraphrag.Text.Defs.{Text, Text-discrete}

-- The file: absent, a JSON object, or something else.
pub data Disk (V : Type 0) : Type 0 where
  missing : Disk V
  json : List (Text × V) → Disk V
  unreadable : Disk V

-- The fields of the object, and its file.
pub record JsonKvStorage (V : Type 0) : Type 0 where
  pub items : List (Text × V)
  pub dirty : Bool
  pub batch_depth : ℕ
  pub disk : Disk V

module _ {V : Type 0} where
  -- What the process leaves: the file, and an object with nothing loaded.
  abbrev pub restarted : JsonKvStorage V → JsonKvStorage V
  restarted kv = record { items = []; dirty = false; batch_depth = 0; disk = kv.disk }

  abbrev pub load_json : Disk V → Result (List (Text × V))
  load_json missing = ok []
  load_json (json d) = ok d
  load_json unreadable = raise corrupt_kv_file_error

  -- The first argument is MEMGRAPHRAG_KV_QUARANTINE_CORRUPT.
  unfoldable pub initialize : Bool → JsonKvStorage V → Result (JsonKvStorage V)
  initialize quarantine kv = elim (load_json kv.disk) [
    | ok d ↦ ok (record kv { items = d; dirty = false })
    | raise e ↦
        if quarantine then ok (record kv { items = []; dirty = false; disk = missing }) else raise e
  ]

  unfoldable pub flush : Bool → JsonKvStorage V → JsonKvStorage V
  flush force kv =
      if ltb 0 kv.batch_depth && not force
      then kv
      else if kv.dirty
      then record kv { disk = json kv.items; dirty = false }
      else kv

  unfoldable pub finalize : JsonKvStorage V → JsonKvStorage V
  unfolding flush
  finalize kv = flush true (record kv { batch_depth = 0 })

  -- `batch`, when it is entered and when it is left.
  unfoldable pub enter_batch : JsonKvStorage V → JsonKvStorage V
  enter_batch kv = record kv { batch_depth = kv.batch_depth + 1 }

  unfoldable pub exit_batch : JsonKvStorage V → JsonKvStorage V
  unfolding flush
  exit_batch kv =
      let left = record kv { batch_depth = kv.batch_depth - 1 } in
      if left.batch_depth == 0 then flush false left else left

  unfoldable pub get_by_id : Text → JsonKvStorage V → Option V
  unfolding get Text-discrete
  get_by_id id kv = get Text-discrete id kv.items

  unfoldable pub get_by_ids : List Text → JsonKvStorage V → List (Option V)
  unfolding get_by_id
  get_by_ids ids kv = map (λ id. get_by_id id kv) ids

  -- the keys that the store does not have
  unfoldable pub filter_keys : List Text → JsonKvStorage V → List Text
  unfolding get_by_id
  filter_keys [] kv = []
  filter_keys (key ∷ keys) kv =
      let rest = filter_keys keys kv in
      elim (get_by_id key kv) [ none ↦ key ∷ rest | some v ↦ rest ]

  abbrev pub get_all : JsonKvStorage V → List (Text × V)
  get_all kv = kv.items

  -- The loop of `delete`: what is left, and whether a key was there.
  unfoldable pub pop_all : List Text → List (Text × V) → List (Text × V) × Bool
  unfolding get pop Text-discrete
  pop_all [] items = (items, false)
  pop_all (id ∷ ids) items =
      let (left, deleted) = pop_all ids (pop Text-discrete id items) in
      elim (get Text-discrete id items) [ none ↦ (left, deleted) | some v ↦ (left, true) ]

  unfoldable pub delete : List Text → JsonKvStorage V → JsonKvStorage V
  unfolding pop_all flush
  delete ids kv =
      let (left, deleted) = pop_all ids kv.items in
      flush false
        (if deleted then record kv { items = left; dirty = true } else record kv { items = left })

  unfoldable pub drop : JsonKvStorage V → JsonKvStorage V
  unfolding flush
  drop kv = flush false (record kv { items = []; dirty = true })

-- A call that may change the store.
pub data Call (V : Type 0) : Type 0 where
  upsert_call : List (Text × V) → Call V
  delete_call : List Text → Call V
  drop_call : Call V
  enter_call : Call V
  exit_call : Call V
  finalize_call : Call V

-- `record["_id"] = key` is an operation of the records.
module _ {V : Type 0} (with_id : Text → V → V) where
  -- the loop of `upsert`
  unfoldable pub put_all : List (Text × V) → List (Text × V) → List (Text × V)
  unfolding put Text-discrete
  put_all [] items = items
  put_all ((key, value) ∷ records) items =
      put_all records (put Text-discrete key (with_id key value) items)

  unfoldable pub upsert : List (Text × V) → JsonKvStorage V → JsonKvStorage V
  unfolding put_all flush
  upsert [] kv = kv
  upsert (r ∷ records) kv =
      flush false (record kv { items = put_all (r ∷ records) kv.items; dirty = true })

  unfoldable pub call : Call V → JsonKvStorage V → JsonKvStorage V
  unfolding upsert delete drop enter_batch exit_batch finalize
  call (upsert_call records) kv = upsert records kv
  call (delete_call ids) kv = delete ids kv
  call drop_call kv = drop kv
  call enter_call kv = enter_batch kv
  call exit_call kv = exit_batch kv
  call finalize_call kv = finalize kv

  unfoldable pub run : List (Call V) → JsonKvStorage V → JsonKvStorage V
  unfolding call
  run [] kv = kv
  run (c ∷ calls) kv = run calls (call c kv)
