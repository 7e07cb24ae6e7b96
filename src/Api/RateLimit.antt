-- ===== src/Api/RateLimit.antt =====
-- memgraphrag/api/rate_limit.py. The clock gives ticks that the window is measured in as well; each
-- call runs under the lock, so calls come one after the other.
use exeio_memgraphrag.Base.{
  ℕ, ℤ, pos, negsuc, List, [], ◌∷◌, ◌++◌, ◌+◌, ◌-◌, if◌then◌else◌, ltb, leb, ◌==◌, length, none,
  some, Option,
}
use exeio_memgraphrag.Base.Dict.{get, put, pop}
use exeio_memgraphrag.Text.Defs.{Text, Text-discrete}

pub record RateLimiter : Type 0 where
  pub max_attempts : ℤ
  pub window_seconds : ℕ
  pub hits : List (Text × List ℕ)

abbrev pub new_limiter : ℤ → ℕ → RateLimiter
new_limiter max_attempts window_seconds = record {
  max_attempts = max_attempts;
  window_seconds = window_seconds;
  hits = [];
}

-- The hits up to `now - window_seconds` leave the front.
unfoldable pub prune : ℕ → ℕ → List ℕ → List ℕ
prune window now [] = []
prune window now (hit ∷ bucket) =
    let rest = prune window now bucket in if leb (hit + window) now then rest else hit ∷ bucket

-- The keys whose buckets are empty are deleted.
unfoldable pub drop_empty : List (Text × List ℕ) → List (Text × List ℕ)
drop_empty [] = []
drop_empty ((key, []) ∷ hits) = drop_empty hits
drop_empty ((key, hit ∷ bucket) ∷ hits) = (key, hit ∷ bucket) ∷ drop_empty hits

-- the sweep of `check`
unfoldable pub sweep : List (Text × List ℕ) → List (Text × List ℕ)
unfolding drop_empty
sweep hits = let swept = drop_empty hits in if ltb 1024 (length hits) then swept else hits

-- `self._hits.get(key)`, with a new bucket for a key that is missing
abbrev pub bucket_or_new : Option (List ℕ) → List ℕ
bucket_or_new none = []
bucket_or_new (some bucket) = bucket

-- `max(0.0, window_seconds - (now - bucket[0]))`
unfoldable pub time_to_wait : ℕ → ℕ → List ℕ → ℕ
time_to_wait window now [] = window
time_to_wait window now (hit ∷ bucket) = (hit + window) - now

-- A call for a limit that is not 0.
unfoldable pub check_limit : RateLimiter → ℕ → Text → ℕ → RateLimiter × Option ℕ
unfolding prune sweep time_to_wait Text-discrete get put
check_limit l max_attempts key now =
    let bucket = prune l.window_seconds now (bucket_or_new (get Text-discrete key l.hits)) in
    if leb max_attempts (length bucket)
    then (
      record l { hits = put Text-discrete key bucket l.hits },
      some (time_to_wait l.window_seconds now bucket),
    )
    else (record l { hits = sweep (put Text-discrete key (bucket ++ now ∷ []) l.hits) }, none)

unfoldable pub check : RateLimiter → Text → ℕ → RateLimiter × Option ℕ
unfolding check_limit
check l key now = elim l.max_attempts [
  | negsuc n ↦ (l, none)
  | pos n ↦ if n == 0 then (l, none) else check_limit l n key now
]

unfoldable pub reset : RateLimiter → Text → RateLimiter
unfolding pop Text-discrete
reset l key = record l { hits = pop Text-discrete key l.hits }
