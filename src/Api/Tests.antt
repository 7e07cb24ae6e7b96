-- ===== src/Api/Tests.antt =====
-- A limiter of two attempts in ten ticks, and queries with literals and comments.
use exeio_memgraphrag.Base.{ℕ, pos, [], ◌∷◌, ◌++◌, none, some, ◌≡◌, refl, ap, arith, ℕ_discrete}
use exeio_memgraphrag.Base.Dict.{get}
use exeio_memgraphrag.Text.Defs.{Text, Text-discrete, codes}
use exeio_memgraphrag.Api.RateLimit.{RateLimiter, check, check_limit}
use exeio_memgraphrag.Api.Cypher.{scan, single_quote, space, strip_literals_and_comments}
use exeio_memgraphrag.Api.Blanked.{strip_literals_and_comments-literal}
use exeio_memgraphrag.Api.Limited.{AreActive, check_limit-AreActive}

abbrev limiter : RateLimiter
limiter = record {
  max_attempts = pos 2;
  window_seconds = 10;
  hits = (codes "a", 1 ∷ 2 ∷ []) ∷ (codes "b", 8 ∷ []) ∷ [];
}

refused : (check limiter (codes "a") 5).1 ≡ some 6
unfolding check ℕ_discrete
refused = refl

allowed : (check limiter (codes "a") 12).1 ≡ none
unfolding check ℕ_discrete
allowed = refl

abbrev first : Text → ℕ
first [] = 0
first (c ∷ t) = c

check_limit-AreActive_example :
    let (l', wait) = check_limit limiter 2 (codes "b") 100 in
    AreActive 2 l'.hits
    × (get Text-discrete (codes "a") l'.hits ≡ get Text-discrete (codes "a") limiter.hits)
check_limit-AreActive_example =
    check_limit-AreActive limiter 2 (codes "b") (codes "a") 100 (omega arith)
      (omega arith, omega arith, (omega arith, omega arith, tt)) (λ e. omega (arith, ap first e))

blanked : strip_literals_and_comments (codes "a 'b\\'c' // d") ≡ codes "a    "
unfolding strip_literals_and_comments scan
blanked = refl

unclosed : strip_literals_and_comments (codes "a /* b") ≡ codes "a  "
unfolding strip_literals_and_comments scan
unclosed = refl

strip_literals_and_comments-literal_example :
    strip_literals_and_comments
      (codes "R " ++ single_quote ∷ (codes "SET" ++ single_quote ∷ codes " AS x"))
    ≡ codes "R " ++ space ∷ strip_literals_and_comments (codes " AS x")
strip_literals_and_comments-literal_example =
    strip_literals_and_comments-literal (codes "R ") (codes "SET") (codes " AS x") single_quote
      (refl, refl, (refl, refl, tt)) refl refl (refl, refl, (refl, refl, (refl, refl, tt)))
