-- ===== src/Text/Found.antt =====
-- A text that is found in the beginning of another is found there in the whole.
use exeio_memgraphrag.Base.{
  ℕ, zero, suc, [], ◌∷◌, ◌++◌, ◌+◌, ◌≤◌, ◌<◌, Bool, true, false, if◌then◌else◌, Option, none, some,
  ◌≡◌, ◌⊎◌, inl, inr, refl, ap, ◌∙◌, subst, length, arith, Bool-cases, Option-cases,
}
use exeio_memgraphrag.Text.Defs.{Text}
use exeio_memgraphrag.Text.Find.{starts_with, find, has_text, take, drop, suc_some}

pub starts_with-length : (p t : Text) → starts_with p t ≡ true → length p ≤ length t
starts_with-length [] t h = omega arith
starts_with-length (c ∷ p) [] h = cc
starts_with-length (c ∷ p) (d ∷ t) h = ground (arith, starts_with-length p t)

pub starts_with-append :
    (p t x : Text) → length p ≤ length t → starts_with p (t ++ x) ≡ starts_with p t
starts_with-append [] t x h = refl
starts_with-append (c ∷ p) [] x h = ground arith
starts_with-append (c ∷ p) (d ∷ t) x h = rw (starts_with-append p t x (omega (arith, h)))

pub starts_with-more : (p q t : Text) → starts_with (p ++ q) t ≡ true → starts_with p t ≡ true
starts_with-more [] q t h = refl
starts_with-more (c ∷ p) q [] h = h
starts_with-more (c ∷ p) q (d ∷ t) h = ground (arith, starts_with-more p q t)

suc_some-found : (o : Option ℕ) (i : ℕ) → suc_some o ≡ some i → (j : ℕ) × (o ≡ some j) × (i ≡ suc j)
suc_some-found none i h = cc
suc_some-found (some j) i h = (j, refl, ground arith)

-- Where a search ends: here, or in the rest.
pub find-cases :
    (p : Text) (c : ℕ) (t : Text) (i : ℕ)
    → find p (c ∷ t) ≡ some i
    → ((starts_with p (c ∷ t) ≡ true) × (i ≡ 0))
      ⊎ ((starts_with p (c ∷ t) ≡ false) × (j : ℕ) × (find p t ≡ some j) × (i ≡ suc j))
unfolding find
find-cases p c t i h = elim (Bool-cases (starts_with p (c ∷ t))) [
  | inl found ↦ inl (
    found,
    ground (arith, subst (λ b. (if b then some 0 else suc_some (find p t)) ≡ some i) found h),
  )
  | inr missing ↦
      let (j, at, there) =
        suc_some-found (find p t) i
          (subst (λ b. (if b then some 0 else suc_some (find p t)) ≡ some i) missing h) in
      inr (missing, j, at, there)
]

suc_some-none : (o : Option ℕ) → suc_some o ≡ none → o ≡ none
suc_some-none none h = refl
suc_some-none (some i) h = cc

-- A search that fails.
pub find-missing :
    (p : Text) (c : ℕ) (t : Text)
    → find p (c ∷ t) ≡ none
    → (starts_with p (c ∷ t) ≡ false) × (find p t ≡ none)
unfolding find
find-missing p c t h = elim (Bool-cases (starts_with p (c ∷ t))) [
  | inl found ↦
      let no : ◌≡◌ {A = Option ℕ} (some 0) none =
        subst (λ b. (if b then some 0 else suc_some (find p t)) ≡ none) found h in
      cc
  | inr missing ↦ (
    missing,
    suc_some-none (find p t)
        (subst (λ b. (if b then some 0 else suc_some (find p t)) ≡ none) missing h),
  )
]

pub find-nil : (p : Text) (i : ℕ) → find p [] ≡ some i → (p ≡ []) × (i ≡ 0)
unfolding find
find-nil [] i h = (refl, ground arith)
find-nil (c ∷ p) i h = cc

pub find-length : (p t : Text) (i : ℕ) → find p t ≡ some i → i + length p ≤ length t
find-length p [] i h = let (empty, here) = find-nil p i h in rw (empty, here) (omega arith)
find-length p (c ∷ t) i h = elim (find-cases p c t i h) [
  | inl (found, here) ↦ omega (arith, here, starts_with-length p (c ∷ t) found)
  | inr (missing, j, at, there) ↦ omega (arith, there, find-length p t j at)
]

pub find-here :
    (p : Text) (c : ℕ) (t : Text) → starts_with p (c ∷ t) ≡ true → find p (c ∷ t) ≡ some 0
unfolding find
find-here p c t h = rw h

pub find-there :
    (p : Text) (c : ℕ) (t : Text) (i : ℕ)
    → starts_with p (c ∷ t) ≡ false
    → find p t ≡ some i
    → find p (c ∷ t) ≡ some (suc i)
unfolding find
find-there p c t i h at = rw (h, at)

pub find-absent :
    (p : Text) (c : ℕ) (t : Text)
    → starts_with p (c ∷ t) ≡ false
    → find p t ≡ none
    → find p (c ∷ t) ≡ none
unfolding find
find-absent p c t h at = rw (h, at)

find-empty : (t : Text) → find [] t ≡ some 0
unfolding find
find-empty [] = refl
find-empty (c ∷ t) = refl

pub find-append : (p t x : Text) (i : ℕ) → find p t ≡ some i → find p (t ++ x) ≡ some i
find-append p [] x i h = let (empty, here) = find-nil p i h in rw (empty, here) (find-empty x)
find-append p (c ∷ t) x i h =
    let same = starts_with-append p (c ∷ t) x (omega (arith, find-length p (c ∷ t) i h)) in
    elim (find-cases p c t i h) [
      | inl (found, here) ↦ rw here (find-here p c (t ++ x) (same ∙ found))
      | inr (missing, j, at, there) ↦
          rw there (find-there p c (t ++ x) j (same ∙ missing) (find-append p t x j at))
    ]

abbrev is_found : Option ℕ → Bool
is_found none = false
is_found (some i) = true

pub has_text-found : (p t : Text) → has_text p t ≡ true → (i : ℕ) × (find p t ≡ some i)
unfolding has_text
has_text-found p t h = elim (Option-cases (find p t)) [
  | inl missing ↦ let no : false ≡ true = subst (λ o. is_found o ≡ true) missing h in cc
  | inr found ↦ found
]

pub found-has_text : (p t : Text) (i : ℕ) → find p t ≡ some i → has_text p t ≡ true
unfolding has_text
found-has_text p t i h = rw (h, has_text)

pub has_text-append : (p t x : Text) → has_text p t ≡ true → has_text p (t ++ x) ≡ true
has_text-append p t x h =
    let (i, at) = has_text-found p t h in found-has_text p (t ++ x) i (find-append p t x i at)

pub has_text-there : (p : Text) (c : ℕ) (t : Text) → has_text p t ≡ true → has_text p (c ∷ t) ≡ true
has_text-there p c t h = elim (Bool-cases (starts_with p (c ∷ t))) [
  | inl found ↦ found-has_text p (c ∷ t) 0 (find-here p c t found)
  | inr missing ↦
      let (i, at) = has_text-found p t h in
      found-has_text p (c ∷ t) (suc i) (find-there p c t i missing at)
]

find-more : (p q t : Text) (i : ℕ) → find (p ++ q) t ≡ some i → has_text p t ≡ true
find-more [] q t i h = found-has_text [] t 0 (find-empty t)
find-more (c ∷ p) q [] i h = let (empty, here) = find-nil (c ∷ p ++ q) i h in cc
find-more (c ∷ p) q (d ∷ t) i h = elim (find-cases (c ∷ p ++ q) d t i h) [
  | inl (found, here) ↦
      found-has_text (c ∷ p) (d ∷ t) 0
        (find-here (c ∷ p) d t (starts_with-more (c ∷ p) q (d ∷ t) found))
  | inr (missing, j, at, there) ↦ has_text-there (c ∷ p) d t (find-more (c ∷ p) q t j at)
]

pub has_text-more : (p q t : Text) → has_text (p ++ q) t ≡ true → has_text p t ≡ true
has_text-more p q t h = let (i, at) = has_text-found (p ++ q) t h in find-more p q t i at

pub take-append : (i : ℕ) (t x : Text) → i ≤ length t → take i (t ++ x) ≡ take i t
take-append zero t x h = refl
take-append (suc i) [] x h = ground arith
take-append (suc i) (c ∷ t) x h = ap (λ r. c ∷ r) (take-append i t x (omega (arith, h)))

pub drop-append : (i : ℕ) (t x : Text) → i ≤ length t → drop i (t ++ x) ≡ drop i t ++ x
drop-append zero t x h = refl
drop-append (suc i) [] x h = ground arith
drop-append (suc i) (c ∷ t) x h = drop-append i t x (omega (arith, h))

-- A text that is too short holds no needle.
pub find-short : (p t : Text) → length t < length p → find p t ≡ none
find-short p t h = elim (Option-cases (find p t)) [
  | inl missing ↦ missing
  | inr (i, at) ↦ ground (arith, find-length p t i at)
]
