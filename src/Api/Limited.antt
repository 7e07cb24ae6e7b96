-- ===== src/Api/Limited.antt =====
-- What the limiter of memgraphrag/api/rate_limit.py keeps.
use exeio_memgraphrag.Base.{
  ℕ, suc, List, [], ◌∷◌, ◌++◌, ◌≤◌, leb, length, ◌≡◌, refl, sym, ap, subst, ◌∙◌, arith, Bool-cases,
  inl, inr, if_pos, if_neg, ◌≢◌,
}
use exeio_memgraphrag.Base.Dict.{get, put, get-put}
use exeio_memgraphrag.Text.Defs.{Text, Text-discrete}
use exeio_memgraphrag.Api.RateLimit.{
  RateLimiter, prune, bucket_or_new, drop_empty, sweep, check_limit,
}

-- No bucket is empty, and none is longer than the limit.
abbrev pub AreActive : ℕ → List (Text × List ℕ) → Type 0
AreActive n [] = Unit
AreActive n ((key, bucket) ∷ hits) = (1 ≤ length bucket) × (length bucket ≤ n) × AreActive n hits

put-AreActive :
    (n : ℕ) (key : Text) (bucket : List ℕ) (hits : List (Text × List ℕ))
    → 1 ≤ length bucket
    → length bucket ≤ n
    → AreActive n hits
    → AreActive n (put Text-discrete key bucket hits)
unfolding put
put-AreActive n key bucket [] some_hit few active = (some_hit, few, tt)
put-AreActive n key bucket ((k, b) ∷ hits) some_hit few active = elim (Text-discrete k key) [
  | yes same ↦ rw (if_pos (Text-discrete k key) same) (some_hit, few, active.2)
  | no other ↦
      rw (if_neg (Text-discrete k key) other)
        (active.0, active.1, put-AreActive n key bucket hits some_hit few active.2)
]

-- Nothing is swept.
drop_empty-active :
    (n : ℕ) (hits : List (Text × List ℕ)) → AreActive n hits → drop_empty hits ≡ hits
unfolding drop_empty
drop_empty-active n [] active = refl
drop_empty-active n ((key, []) ∷ hits) active = ground (arith, active.0)
drop_empty-active n ((key, hit ∷ bucket) ∷ hits) active =
    ap (λ r. (key, hit ∷ bucket) ∷ r) (drop_empty-active n hits active.2)

sweep-active : (n : ℕ) (hits : List (Text × List ℕ)) → AreActive n hits → sweep hits ≡ hits
unfolding sweep
sweep-active n hits active = ground (arith, drop_empty-active n hits active)

length-prune : (window now : ℕ) (bucket : List ℕ) → length (prune window now bucket) ≤ length bucket
unfolding prune
length-prune window now [] = omega arith
length-prune window now (hit ∷ bucket) = ground (arith, length-prune window now bucket)

bucket-AreActive :
    (n : ℕ) (key : Text) (hits : List (Text × List ℕ))
    → AreActive n hits
    → length (bucket_or_new (get Text-discrete key hits)) ≤ n
unfolding get
bucket-AreActive n key [] active = omega arith
bucket-AreActive n key ((k, b) ∷ hits) active = elim (Text-discrete k key) [
  | yes same ↦ rw (if_pos (Text-discrete k key) same) active.1
  | no other ↦ rw (if_neg (Text-discrete k key) other) (bucket-AreActive n key hits active.2)
]

length-snoc_hit : (bucket : List ℕ) (now : ℕ) → length (bucket ++ now ∷ []) ≡ suc (length bucket)
length-snoc_hit [] now = refl
length-snoc_hit (hit ∷ bucket) now = ap suc (length-snoc_hit bucket now)

-- The buckets after a call: one of them is written, and none is swept.
check_limit-put :
    (l : RateLimiter) (n : ℕ) (key : Text) (now : ℕ)
    → 1 ≤ n
    → AreActive n l.hits
    → (bucket : List ℕ) × ((check_limit l n key now).0.hits ≡ put Text-discrete key bucket l.hits)
      × (1 ≤ length bucket)
      × (length bucket ≤ n)
unfolding check_limit
check_limit-put l n key now limited active =
    let bucket = prune l.window_seconds now (bucket_or_new (get Text-discrete key l.hits)) in
    let few = length-prune l.window_seconds now (bucket_or_new (get Text-discrete key l.hits)) in
    let old = bucket-AreActive n key l.hits active in
    let next = bucket ++ now ∷ [] in
    elim (Bool-cases (leb n (length bucket))) [
      | inl full ↦ (bucket, rw full, ground (arith, full), omega (arith, few, old))
      | inr free ↦
          let one : 1 ≤ length next = omega (arith, length-snoc_hit bucket now) in
          let most : length next ≤ n = ground (arith, free, length-snoc_hit bucket now) in
          (
            next,
            rw free (
                sweep-active n (put Text-discrete key next l.hits)
                  (put-AreActive n key next l.hits one most active)),
            one,
            most,
          )
    ]

-- Under a limit, where no bucket is empty or longer than the limit, a call keeps it so, and it
-- leaves the bucket of every other key as it is, however old its hits are and however many keys
-- there are.
pub check_limit-AreActive :
    (l : RateLimiter) (n : ℕ) (key other : Text) (now : ℕ)
    → 1 ≤ n
    → AreActive n l.hits
    → key ≢ other
    → let (l', wait) = check_limit l n key now in
      AreActive n l'.hits × (get Text-discrete other l'.hits ≡ get Text-discrete other l.hits)
check_limit-AreActive l n key other now limited active apart =
    let (bucket, written, one, most) = check_limit-put l n key now limited active in
    (
      subst (AreActive n) (sym written) (put-AreActive n key bucket l.hits one most active),
      ap (get Text-discrete other) written
          ∙ get-put Text-discrete key other bucket l.hits
          ∙ if_neg (Text-discrete key other) apart _ _,
    )
