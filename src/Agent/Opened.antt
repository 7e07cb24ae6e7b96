-- ===== src/Agent/Opened.antt =====
-- The marks and the names that open a channel, in a stream and in its beginnings
-- (memgraphrag/agent/harmony.py).
use exeio_memgraphrag.Base.{
  ℕ, [], ◌∷◌, ◌++◌, ◌≤◌, Bool, true, false, ◌≡◌, refl, sym, ◌∙◌, length, arith,
}
use exeio_memgraphrag.Text.Defs.{Text, codes}
use exeio_memgraphrag.Text.Find.{starts_with, has_text, drop}
use exeio_memgraphrag.Text.Found.{
  found-has_text, has_text-append, has_text-more, starts_with-append, find-here,
}
use exeio_memgraphrag.Agent.Harmony.{tagged_final, mark, opens_with, untagged_open}

pub not_true : (b : Bool) → (b ≡ true → ⊥) → b ≡ false
not_true true h = ground (arith, h refl)
not_true false h = refl

-- A mark that is not in a whole is in no beginning of it.
pub unmarked_part : (t x : Text) → has_text mark (t ++ x) ≡ false → has_text mark t ≡ false
unmarked_part t x h =
    not_true (has_text mark t) (λ found. ground (arith, has_text-append mark t x found))

pub unmarked-unseparated : (t : Text) → has_text mark t ≡ false → has_text tagged_final t ≡ false
unmarked-unseparated t h =
    not_true (has_text tagged_final t)
      (λ found. ground (arith, has_text-more mark (drop 2 tagged_final) t found))

-- Without a mark in its beginning, what begins with one is short there.
pub unmarked_short :
    (t x : Text) → starts_with mark (t ++ x) ≡ true → has_text mark t ≡ false → length t ≤ 1
unmarked_short [] x h missing = omega arith
unmarked_short (c ∷ []) x h missing = omega arith
unmarked_short (c ∷ d ∷ t) x h missing =
    let found = sym (starts_with-append mark (c ∷ d ∷ t) x (omega arith)) ∙ h in
    let has = found-has_text mark (c ∷ d ∷ t) 0 (find-here mark c (d ∷ t) found) in
    ground (arith, has, missing)

module _ (is_space is_word : ℕ → Bool) where
  opens_with-append :
      (n t x : Text)
      → opens_with is_space is_word n t ≡ true
      → opens_with is_space is_word n (t ++ x) ≡ true
  unfolding opens_with
  opens_with-append [] [] x h = cc
  opens_with-append [] (d ∷ t) x h = h
  opens_with-append (c ∷ n) [] x h = cc
  opens_with-append (c ∷ n) (d ∷ t) x h = ground (arith, opens_with-append n t x)

  opens_with-short : (n t : Text) → length t ≤ length n → opens_with is_space is_word n t ≡ false
  unfolding opens_with
  opens_with-short [] [] h = refl
  opens_with-short [] (d ∷ t) h = ground arith
  opens_with-short (c ∷ n) [] h = refl
  opens_with-short (c ∷ n) (d ∷ t) h = rw (opens_with-short n t (omega (arith, h))) (ground arith)

  opens_with-longer :
      (n t x : Text)
      → opens_with is_space is_word n (t ++ x) ≡ true
      → opens_with is_space is_word n t ≡ false
      → length t ≤ length n
  unfolding opens_with
  opens_with-longer [] [] x h o = omega arith
  opens_with-longer [] (d ∷ t) x h o = ground arith
  opens_with-longer (c ∷ n) [] x h o = omega arith
  opens_with-longer (c ∷ n) (d ∷ t) x h o = ground (arith, opens_with-longer n t x)

  pub untagged_open-append :
      (t x : Text)
      → untagged_open is_space is_word t ≡ true
      → untagged_open is_space is_word (t ++ x) ≡ true
  unfolding untagged_open
  untagged_open-append t x h =
      ground (
        arith,
        opens_with-append (codes "analysis") t x,
        opens_with-append (codes "commentary") t x,
      )

  pub untagged_open-short : (t : Text) → length t ≤ 8 → untagged_open is_space is_word t ≡ false
  unfolding untagged_open
  untagged_open-short t h = rw (
    opens_with-short (codes "analysis") t h,
    opens_with-short (codes "commentary") t (omega (arith, h)),
  )

  pub untagged_open-longer :
      (t x : Text)
      → untagged_open is_space is_word (t ++ x) ≡ true
      → untagged_open is_space is_word t ≡ false
      → length t ≤ 10
  unfolding untagged_open
  untagged_open-longer t x h o =
      ground (
        arith,
        opens_with-longer (codes "analysis") t x,
        opens_with-longer (codes "commentary") t x,
      )
