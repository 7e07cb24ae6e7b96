-- ===== src/Storage/Batched.antt =====
-- Calls in a batch of memgraphrag/storage/json_kv_impl.py and the same calls without one.
use exeio_memgraphrag.Base.{
  List, [], ◌∷◌, Bool, true, false, ◌≡◌, refl, arith, Bool-cases, inl, inr, if◌then◌else◌,
}
use exeio_memgraphrag.Text.Defs.{Text}
use exeio_memgraphrag.Storage.JsonKv.{
  JsonKvStorage, Disk, json, flush, enter_batch, exit_batch, pop_all, delete, drop, put_all, upsert,
  Call, upsert_call, delete_call, drop_call, enter_call, exit_call, finalize_call, call, run,
}
use exeio_memgraphrag.Storage.Durable.{pop_all-none}

module _ {V : Type 0} where
  -- A call that changes records and neither opens nor closes a batch.
  abbrev pub is_write : Call V → Bool
  is_write (upsert_call _) = true
  is_write (delete_call _) = true
  is_write drop_call = true
  is_write enter_call = false
  is_write exit_call = false
  is_write finalize_call = false

  abbrev pub AllWrites : List (Call V) → Type 0
  AllWrites [] = Unit
  AllWrites (c ∷ calls) = (is_write c ≡ true) × AllWrites calls

  -- Two runs of the same writes: `later`, in a batch, has still to write what `now` has written.
  record IsDeferred (disk : Disk V) (now later : JsonKvStorage V) : Type 0 where
    pub same : later.items ≡ now.items
    pub clean : now.dirty ≡ false
    pub outside : now.batch_depth ≡ 0
    pub inside : later.batch_depth ≡ 1
    pub untouched : later.disk ≡ disk
    pub pending : now.disk ≡ (if later.dirty then json later.items else later.disk)

  -- The end of a write in each of the runs.
  flush-IsDeferred :
      (disk : Disk V) (now later : JsonKvStorage V) (items : List (Text × V))
      → IsDeferred disk now later
      → IsDeferred disk
          (flush false (record now { items = items; dirty = true }))
          (flush false (record later { items = items; dirty = true }))
  unfolding flush
  flush-IsDeferred disk now later items d = ground arith

  unchanged-IsDeferred :
      (disk : Disk V) (now later : JsonKvStorage V)
      → IsDeferred disk now later
      → IsDeferred disk (flush false now) (flush false later)
  unfolding flush
  unchanged-IsDeferred disk now later d = ground arith

  delete-none :
      (ids : List Text) (kv : JsonKvStorage V)
      → (pop_all ids kv.items).1 ≡ false
      → delete ids kv ≡ flush false kv
  unfolding delete
  delete-none ids kv no_key = rw (no_key, pop_all-none ids kv.items no_key) refl

  delete-some :
      (ids : List Text) (kv : JsonKvStorage V)
      → (pop_all ids kv.items).1 ≡ true
      → delete ids kv ≡ flush false (record kv { items = (pop_all ids kv.items).0; dirty = true })
  unfolding delete
  delete-some ids kv some_key = rw some_key refl

  delete-IsDeferred :
      (disk : Disk V) (ids : List Text) (now later : JsonKvStorage V)
      → IsDeferred disk now later
      → IsDeferred disk (delete ids now) (delete ids later)
  delete-IsDeferred disk ids now later d =
      let (left, deleted) = pop_all ids now.items in
      elim (Bool-cases deleted) [
        | inl some_key ↦
            rw (delete-some ids now some_key, delete-some ids later (rw d.same some_key), d.same)
              (flush-IsDeferred disk now later left d)
        | inr no_key ↦
            rw (delete-none ids now no_key, delete-none ids later (rw d.same no_key))
              (unchanged-IsDeferred disk now later d)
      ]

  module _ (with_id : Text → V → V) where
    call-IsDeferred :
        (disk : Disk V) (c : Call V) (now later : JsonKvStorage V)
        → is_write c ≡ true
        → IsDeferred disk now later
        → IsDeferred disk (call with_id c now) (call with_id c later)
    unfolding call upsert drop
    call-IsDeferred disk (upsert_call []) now later w d = d
    call-IsDeferred disk (upsert_call (r ∷ records)) now later w d =
        rw d.same (flush-IsDeferred disk now later (put_all with_id (r ∷ records) now.items) d)
    call-IsDeferred disk (delete_call ids) now later w d = delete-IsDeferred disk ids now later d
    call-IsDeferred disk drop_call now later w d = flush-IsDeferred disk now later [] d
    call-IsDeferred disk enter_call now later w d = cc
    call-IsDeferred disk exit_call now later w d = cc
    call-IsDeferred disk finalize_call now later w d = cc

    run-IsDeferred :
        (disk : Disk V) (calls : List (Call V)) (now later : JsonKvStorage V)
        → AllWrites calls
        → IsDeferred disk now later
        → IsDeferred disk (run with_id calls now) (run with_id calls later)
    unfolding run
    run-IsDeferred disk [] now later w d = d
    run-IsDeferred disk (c ∷ calls) now later w d =
        run-IsDeferred disk calls (call with_id c now) (call with_id c later) w.1
          (call-IsDeferred disk c now later w.0 d)

    exit_batch-IsDeferred :
        (disk : Disk V) (now later : JsonKvStorage V)
        → IsDeferred disk now later
        → exit_batch later ≡ now
    unfolding exit_batch flush
    exit_batch-IsDeferred disk now later d =
        ground (arith, d.same, d.clean, d.outside, d.inside, d.pending, d.untouched)

    -- Writes in a batch on a store with no batch open and nothing pending: until the batch is left the
    -- file is not touched, and then the store and its file are what the same writes make of them with
    -- no batch.
    pub run-batch :
        (calls : List (Call V)) (kv : JsonKvStorage V)
        → AllWrites calls
        → kv.batch_depth ≡ 0
        → kv.dirty ≡ false
        → let inside = run with_id calls (enter_batch kv) in
          (inside.disk ≡ kv.disk) × (exit_batch inside ≡ run with_id calls kv)
    run-batch calls kv writes outside clean =
        let d =
          run-IsDeferred kv.disk calls kv (enter_batch kv) writes
            (unfold enter_batch in ground (arith, outside, clean)) in
        (d.untouched, exit_batch-IsDeferred kv.disk (run with_id calls kv) _ d)
