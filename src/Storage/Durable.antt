-- ===== src/Storage/Durable.antt =====
-- What the file of a store holds between two calls (memgraphrag/storage/json_kv_impl.py).
use exeio_memgraphrag.Base.{
  ◌-◌, List, [], ◌∷◌, Bool, true, false, ◌≡◌, refl, ok, ◌==◌, arith, Bool-cases, inl, inr,
}
use exeio_memgraphrag.Base.Dict.{pop, pop-absent}
use exeio_memgraphrag.Text.Defs.{Text, Text-discrete}
use exeio_memgraphrag.Storage.JsonKv.{
  JsonKvStorage, restarted, load_json, initialize, flush, finalize, enter_batch, exit_batch,
  pop_all, delete, drop, put_all, upsert, Call, upsert_call, delete_call, drop_call, enter_call,
  exit_call, finalize_call, call, run,
}

-- With no change pending the file holds what the object does; outside of a batch none is pending.
pub record IsDurable {V : Type 0} (kv : JsonKvStorage V) : Type 0 where
  pub saved : kv.dirty ≡ false → load_json kv.disk ≡ ok kv.items
  pub settled : kv.batch_depth ≡ 0 → kv.dirty ≡ false

module _ {V : Type 0} where
  -- What a flush needs: a pending change, or a file that is up to date.
  flush-IsDurable :
      (force : Bool) (kv : JsonKvStorage V)
      → (kv.dirty ≡ false → load_json kv.disk ≡ ok kv.items)
      → (force ≡ true → kv.batch_depth ≡ 0)
      → IsDurable (flush force kv)
  unfolding flush
  flush-IsDurable force kv saved forced = record {
    saved = λ h. ground (arith, saved, forced);
    settled = λ h. ground (arith, forced);
  }

  -- Where no key is there to be deleted, nothing changes.
  pub pop_all-none :
      (ids : List Text) (items : List (Text × V))
      → (pop_all ids items).1 ≡ false
      → (pop_all ids items).0 ≡ items
  unfolding pop_all
  pop_all-none [] items h = refl
  pop_all-none (id ∷ ids) items h = ground (
    arith,
    pop-absent Text-discrete id items,
    pop_all-none ids items,
    pop_all-none ids (pop Text-discrete id items),
  )

  delete-IsDurable :
      (ids : List Text) (kv : JsonKvStorage V) → IsDurable kv → IsDurable (delete ids kv)
  unfolding delete
  delete-IsDurable ids kv d =
      let (left, deleted) = pop_all ids kv.items in
      elim (Bool-cases deleted) [
        | inl some_key ↦
            rw some_key
              (flush-IsDurable false (record kv { items = left; dirty = true }) (λ h. cc) (λ h. cc))
        | inr no_key ↦
            rw (no_key, pop_all-none ids kv.items no_key)
              (flush-IsDurable false kv d.saved (λ h. cc))
      ]

  drop-IsDurable : (kv : JsonKvStorage V) → IsDurable (drop kv)
  unfolding drop
  drop-IsDurable kv =
      flush-IsDurable false (record kv { items = []; dirty = true }) (λ h. cc) (λ h. cc)

  finalize-IsDurable : (kv : JsonKvStorage V) → IsDurable kv → IsDurable (finalize kv)
  unfolding finalize
  finalize-IsDurable kv d = flush-IsDurable true (record kv { batch_depth = 0 }) d.saved (λ h. refl)

  enter_batch-IsDurable : (kv : JsonKvStorage V) → IsDurable kv → IsDurable (enter_batch kv)
  unfolding enter_batch
  enter_batch-IsDurable kv d = record { saved = d.saved; settled = λ h. ground arith }

  exit_batch-IsDurable : (kv : JsonKvStorage V) → IsDurable kv → IsDurable (exit_batch kv)
  unfolding exit_batch
  exit_batch-IsDurable kv d = elim (Bool-cases (kv.batch_depth - 1 == 0)) [
    | inl last ↦
        rw last
          (flush-IsDurable false (record kv { batch_depth = kv.batch_depth - 1 }) d.saved (λ h. cc))
    | inr more ↦ rw more (record { saved = d.saved; settled = λ h. ground (arith, more) })
  ]

  module _ (with_id : Text → V → V) where
    upsert-IsDurable :
        (records : List (Text × V)) (kv : JsonKvStorage V)
        → IsDurable kv
        → IsDurable (upsert with_id records kv)
    unfolding upsert
    upsert-IsDurable [] kv d = d
    upsert-IsDurable (r ∷ records) kv d =
        flush-IsDurable false
          (record kv { items = put_all with_id (r ∷ records) kv.items; dirty = true }) (λ h. cc)
          (λ h. cc)

    call-IsDurable :
        (c : Call V) (kv : JsonKvStorage V) → IsDurable kv → IsDurable (call with_id c kv)
    unfolding call
    call-IsDurable (upsert_call records) kv d = upsert-IsDurable records kv d
    call-IsDurable (delete_call ids) kv d = delete-IsDurable ids kv d
    call-IsDurable drop_call kv d = drop-IsDurable kv
    call-IsDurable enter_call kv d = enter_batch-IsDurable kv d
    call-IsDurable exit_call kv d = exit_batch-IsDurable kv d
    call-IsDurable finalize_call kv d = finalize-IsDurable kv d

    pub run-IsDurable :
        (calls : List (Call V)) (kv : JsonKvStorage V)
        → IsDurable kv
        → IsDurable (run with_id calls kv)
    unfolding run
    run-IsDurable [] kv d = d
    run-IsDurable (c ∷ calls) kv d = run-IsDurable calls (call with_id c kv) (call-IsDurable c kv d)

    -- After any calls on a store whose file is up to date, if no batch is open, a process that starts
    -- again loads what the store held: nothing is lost and nothing raised, whatever becomes of the
    -- old process.
    pub initialize-restarted :
        (quarantine : Bool) (calls : List (Call V)) (kv : JsonKvStorage V)
        → IsDurable kv
        → (run with_id calls kv).batch_depth ≡ 0
        → let after = run with_id calls kv in
          initialize quarantine (restarted after)
          ≡ ok (record (restarted after) { items = after.items })
    unfolding initialize
    initialize-restarted quarantine calls kv d closed =
        let after = run-IsDurable calls kv d in ground (arith, after.saved (after.settled closed))
