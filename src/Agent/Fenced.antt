-- ===== src/Agent/Fenced.antt =====
-- A passage cannot close its fence (memgraphrag/prompts/templates.py).
use exeio_memgraphrag.Base.{
  ℕ, zero, suc, ◌+◌, ◌/◌, ◌%◌, ◌≤◌, [], ◌∷◌, ◌++◌, true, false, ◌==◌, ltb, ◌≡◌, refl, sym, ap, ◌∙◌,
  subst, arith, Bool-cases, inl, inr, append_assoc,
}
use exeio_memgraphrag.Text.Defs.{Text, codes}
use exeio_memgraphrag.Text.Find.{starts_with, find, has_text}
use exeio_memgraphrag.Agent.Fence.{
  digits, decimal, replace_from, neutralize_fences, passage_fence_open, passage_fence_close,
}

-- `v` stands nowhere in the text.
abbrev IsFree : Text → Text → Type 0
IsFree v [] = starts_with v [] ≡ false
IsFree v (c ∷ t) = (starts_with v (c ∷ t) ≡ false) × IsFree v t

IsFree-starts_with : (v t : Text) → IsFree v t → starts_with v t ≡ false
IsFree-starts_with v [] free = free
IsFree-starts_with v (c ∷ t) free = free.0

longer-starts_with : (u v t : Text) → IsFree v t → starts_with (u ++ v) t ≡ false
longer-starts_with [] v t free = IsFree-starts_with v t free
longer-starts_with (x ∷ u) v [] free = refl
longer-starts_with (x ∷ u) v (c ∷ t) (_, free) = ground (arith, longer-starts_with u v t free)

longer-IsFree : (u v t : Text) → IsFree v t → IsFree (u ++ v) t
longer-IsFree u v [] free = longer-starts_with u v [] free
longer-IsFree u v (c ∷ t) free = (longer-starts_with u v (c ∷ t) free, longer-IsFree u v t free.1)

IsFree-has_text : (v t : Text) → IsFree v t → has_text v t ≡ false
unfolding has_text find
IsFree-has_text v [] free = ground (arith, free)
IsFree-has_text v (c ∷ t) (here, free) = ground (arith, here, IsFree-has_text v t free)

abbrev right_marks : Text
right_marks = codes ">>>"

abbrev spaced : ℕ → Text → Text
spaced skip s = replace_from skip right_marks (codes "> > >") s

-- What is behind a mark that is not rewritten.
spaced-one :
    (s : Text) → starts_with (codes ">") (spaced 0 s) ≡ true → starts_with (codes ">") s ≡ true
unfolding replace_from
spaced-one [] h = h
spaced-one (c ∷ s) h = elim (Bool-cases (starts_with right_marks (c ∷ s))) [
  | inl marks ↦ ground (arith, marks)
  | inr other ↦ ground (arith, h, other)
]

spaced-two :
    (s : Text) → starts_with (codes ">>") (spaced 0 s) ≡ true → starts_with (codes ">>") s ≡ true
unfolding replace_from
spaced-two [] h = h
spaced-two (c ∷ s) h = elim (Bool-cases (starts_with right_marks (c ∷ s))) [
  | inl marks ↦ ground (arith, h, marks)
  | inr other ↦ ground (arith, h, other, spaced-one s)
]

spaced-three : (s : Text) → starts_with right_marks (spaced 0 s) ≡ false
unfolding replace_from
spaced-three [] = refl
spaced-three (c ∷ s) = elim (Bool-cases (starts_with right_marks (c ∷ s))) [
  | inl marks ↦ ground (arith, marks)
  | inr other ↦ ground (arith, other, spaced-two s)
]

spaced-marks :
    (d : ℕ) (s : Text)
    → starts_with right_marks (d ∷ s) ≡ true
    → spaced 0 (d ∷ s) ≡ codes "> > >" ++ spaced 2 s
unfolding replace_from
spaced-marks d s marks = ground (arith, marks)

spaced-other :
    (d : ℕ) (s : Text) → starts_with right_marks (d ∷ s) ≡ false → spaced 0 (d ∷ s) ≡ d ∷ spaced 0 s
unfolding replace_from
spaced-other d s other = ground (arith, other)

-- Behind any other character but a space there are no three marks.
spaced-IsFree :
    (c skip : ℕ) (s : Text)
    → (c == 62) ≡ false
    → (c == 32) ≡ false
    → IsFree (c ∷ right_marks) (spaced skip s)
unfolding replace_from
spaced-IsFree c skip [] mark space = refl
spaced-IsFree c (suc skip) (d ∷ s) mark space = spaced-IsFree c skip s mark space
spaced-IsFree c zero (d ∷ s) mark space = elim (Bool-cases (starts_with right_marks (d ∷ s))) [
  | inl marks ↦ subst (IsFree (c ∷ right_marks)) (sym (spaced-marks d s marks)) (
    ground (arith, mark),
    (
      ground (arith, space),
      (
        ground (arith, mark),
        (ground (arith, space), (ground (arith, mark), spaced-IsFree c 2 s mark space)),
      ),
    ),
  )
  | inr other ↦
      subst (IsFree (c ∷ right_marks)) (sym (spaced-other d s other))
        (ground (arith, spaced-three s), spaced-IsFree c 0 s mark space)
]

digits-last :
    (fuel n : ℕ)
    → (front : Text) × (d : ℕ) × (digits (suc fuel) n ≡ front ++ d ∷ []) × (48 ≤ d) × (d ≤ 57)
unfolding digits
digits-last fuel n = elim (Bool-cases (ltb n 10)) [
  | inl small ↦ ([], 48 + n, ground (arith, small), omega arith, ground (arith, small))
  | inr large ↦ (digits fuel (n / 10), 48 + n % 10, ground (arith, large), omega arith, omega arith)
]

marker-ends :
    (start front : Text) (d : ℕ) (number : Text)
    → number ≡ front ++ d ∷ []
    → start ++ number ++ right_marks ≡ (start ++ front) ++ d ∷ right_marks
marker-ends [] [] d number e = ap (λ t. t ++ right_marks) e
marker-ends [] (x ∷ front) d number e =
    ap (λ t. t ++ right_marks) e ∙ append_assoc (x ∷ front) (d ∷ []) right_marks
marker-ends (y ∷ start) front d number e = ap (λ t. y ∷ t) (marker-ends start front d number e)

marker-has_text :
    (start : Text) (n : ℕ) (text : Text)
    → has_text (start ++ decimal n ++ right_marks) (spaced 0 text) ≡ false
marker-has_text start n text =
    let (front, d, e, low, high) = digits-last n n in
    let free =
      longer-IsFree (start ++ front) (d ∷ right_marks) (spaced 0 text)
        (spaced-IsFree d 0 text (ground (arith, low)) (ground (arith, low, high))) in
    IsFree-has_text (start ++ decimal n ++ right_marks) (spaced 0 text)
      (subst (λ v. IsFree v (spaced 0 text)) (sym (marker-ends start front d (decimal n) e)) free)

-- The text of a passage holds no marker that begins or ends a fence, of whatever number, once it has
-- been defanged.
pub neutralize_fences-has_text :
    (index : ℕ) (passage : Text)
    → (has_text (passage_fence_open index) (neutralize_fences passage) ≡ false)
      × (has_text (passage_fence_close index) (neutralize_fences passage) ≡ false)
unfolding neutralize_fences
neutralize_fences-has_text index passage =
    let inner = replace_from 0 (codes "<<<") (codes "< < <") passage in
    (
      marker-has_text (codes "<<<PASSAGE ") index inner,
      marker-has_text (codes "<<<END PASSAGE ") index inner,
    )
