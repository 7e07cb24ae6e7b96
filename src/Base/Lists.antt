-- ===== src/Base/Lists.antt =====
-- Lists measured and indexed by native numbers, under the library's names.
use Prim.Native.Nat.{ℕ, zero, suc, ◌+◌, ◌<◌, ◌≤◌}
use mathlib.Core.Path.{◌≡◌, refl, ap, subst}
use mathlib.Core.Logic.{◌≢◌, inl, inr}
use mathlib.Core.Bool.{Bool, false, not, ◌&&◌, ◌||◌}
use mathlib.Core.List.{List, [], ◌∷◌, ◌++◌, map}
use mathlib.Core.Option
use mathlib.Core.Option.{Option, none, some, some-injective}
use native.Mathlib.Omega.{arith}
use exeio_memgraphrag.Base.Tests.{ltb, ◌==◌, if◌then◌else◌, Bool-cases}

module _ {ℓ} {A : Type ℓ} where
  abbrev pub length : List A → ℕ
  length [] = 0
  length (x ∷ xs) = suc (length xs)

  abbrev pub get_elem? : List A → ℕ → Option A
  get_elem? [] i = none
  get_elem? (x ∷ xs) zero = some x
  get_elem? (x ∷ xs) (suc i) = get_elem? xs i

  -- A change of the element at `i`; out of bounds nothing changes.
  abbrev pub modify : ℕ → (A → A) → List A → List A
  modify i f [] = []
  modify zero f (x ∷ xs) = f x ∷ xs
  modify (suc i) f (x ∷ xs) = x ∷ modify i f xs

  -- `del xs[i]`
  abbrev pub delete : ℕ → List A → List A
  delete i [] = []
  delete zero (x ∷ xs) = xs
  delete (suc i) (x ∷ xs) = x ∷ delete i xs

  pub length-append : (xs ys : List A) → length (xs ++ ys) ≡ length xs + length ys
  length-append [] ys = omega arith
  length-append (x ∷ xs) ys = omega (arith, length-append xs ys)

  pub length-modify : (i : ℕ) (f : A → A) (xs : List A) → length (modify i f xs) ≡ length xs
  length-modify i f [] = refl
  length-modify zero f (x ∷ xs) = refl
  length-modify (suc i) f (x ∷ xs) = ap suc (length-modify i f xs)

  pub get_elem?-modify :
      (i j : ℕ) (f : A → A) (xs : List A)
      → get_elem? (modify i f xs) j
        ≡ (if i == j then Option.map f (get_elem? xs j) else get_elem? xs j)
  get_elem?-modify i j f [] = ground arith
  get_elem?-modify zero zero f (x ∷ xs) = refl
  get_elem?-modify zero (suc j) f (x ∷ xs) = ground arith
  get_elem?-modify (suc i) zero f (x ∷ xs) = ground arith
  get_elem?-modify (suc i) (suc j) f (x ∷ xs) = ground (arith, get_elem?-modify i j f xs)

  pub get_elem?-snoc :
      (j : ℕ) (xs : List A) (x : A)
      → get_elem? (xs ++ x ∷ []) j ≡ (if j == length xs then some x else get_elem? xs j)
  get_elem?-snoc zero [] x = refl
  get_elem?-snoc (suc j) [] x = ground arith
  get_elem?-snoc zero (y ∷ xs) x = ground arith
  get_elem?-snoc (suc j) (y ∷ xs) x = ground (arith, get_elem?-snoc j xs x)

  pub get_elem?-delete :
      (i j : ℕ) (xs : List A)
      → get_elem? (delete i xs) j ≡ get_elem? xs (if ltb j i then j else suc j)
  get_elem?-delete i j [] = refl
  get_elem?-delete zero j (x ∷ xs) = ground arith
  get_elem?-delete (suc i) zero (x ∷ xs) = ground arith
  get_elem?-delete (suc i) (suc j) (x ∷ xs) = ground (arith, get_elem?-delete i j xs)

  pub get_elem?-lt : (i : ℕ) (xs : List A) {x : A} → get_elem? xs i ≡ some x → i < length xs
  get_elem?-lt zero (x ∷ xs) h = omega arith
  get_elem?-lt (suc i) (x ∷ xs) h = omega (arith, get_elem?-lt i xs h)
  get_elem?-lt i [] h = ground arith

  pub get_elem?_of_lt : (i : ℕ) (xs : List A) → i < length xs → (x : A) × (get_elem? xs i ≡ some x)
  get_elem?_of_lt i [] h = elim h [ ]
  get_elem?_of_lt zero (x ∷ xs) h = (x, refl)
  get_elem?_of_lt (suc i) (x ∷ xs) h = get_elem?_of_lt i xs (omega arith)

  pub get_elem?_of_le : (i : ℕ) (xs : List A) → length xs ≤ i → get_elem? xs i ≡ none
  get_elem?_of_le i [] h = refl
  get_elem?_of_le zero (x ∷ xs) h = absurd (omega arith)
  get_elem?_of_le (suc i) (x ∷ xs) h = get_elem?_of_le i xs (omega arith)

  pub get_elem?-ne-none : (i : ℕ) (xs : List A) → i < length xs → get_elem? xs i ≢ none
  get_elem?-ne-none i xs h = λ e. let (x, at) = get_elem?_of_lt i xs h in cc

  pub get_elem?-length : (xs : List A) → get_elem? xs (length xs) ≡ none
  get_elem?-length [] = refl
  get_elem?-length (x ∷ xs) = get_elem?-length xs

  pub length-delete : (i : ℕ) (xs : List A) → i < length xs → suc (length (delete i xs)) ≡ length xs
  length-delete i [] h = elim h [ ]
  length-delete zero (x ∷ xs) h = refl
  length-delete (suc i) (x ∷ xs) h = omega (arith, length-delete i xs)

module _ {ℓ κ} {A : Type ℓ} {B : Type κ} where
  pub get_elem?-map :
      (f : A → B) (i : ℕ) (xs : List A) → get_elem? (map f xs) i ≡ Option.map f (get_elem? xs i)
  get_elem?-map f i [] = refl
  get_elem?-map f zero (x ∷ xs) = refl
  get_elem?-map f (suc i) (x ∷ xs) = get_elem?-map f i xs

  pub length-map : (xs : List A) (f : A → B) → length (map f xs) ≡ length xs
  length-map [] f = refl
  length-map (x ∷ xs) f = ap suc (length-map xs f)

-- `i in xs`
abbrev pub contains : List ℕ → ℕ → Bool
contains [] i = false
contains (x ∷ xs) i = x == i || contains xs i

-- `if i not in xs: xs.append(i)`
unfoldable pub add_index : ℕ → List ℕ → List ℕ
add_index i xs = if contains xs i then xs else xs ++ i ∷ []

-- `if i in xs: xs.remove(i)`
unfoldable pub drop_index : ℕ → List ℕ → List ℕ
drop_index i [] = []
drop_index i (x ∷ xs) = if x == i then xs else x ∷ drop_index i xs

pub contains-snoc : (xs : List ℕ) (i j : ℕ) → contains (xs ++ i ∷ []) j ≡ (contains xs j || i == j)
contains-snoc [] i j = ground arith
contains-snoc (x ∷ xs) i j = ground (arith, contains-snoc xs i j)

pub contains-add_index :
    (i j : ℕ) (xs : List ℕ) → contains (add_index i xs) j ≡ (i == j || contains xs j)
unfolding add_index
contains-add_index i j xs = ground (arith, contains-snoc xs i j)

-- No position stands twice.
abbrev pub IsDistinct : List ℕ → Type 0
IsDistinct [] = Unit
IsDistinct (x ∷ xs) = (contains xs x ≡ false) × IsDistinct xs

IsDistinct-snoc :
    (xs : List ℕ) (i : ℕ) → contains xs i ≡ false → IsDistinct xs → IsDistinct (xs ++ i ∷ [])
IsDistinct-snoc [] i new h = (refl, tt)
IsDistinct-snoc (x ∷ xs) i new h =
    (ground (arith, contains-snoc xs i x), IsDistinct-snoc xs i (ground arith) h.1)

pub add_index-IsDistinct : (i : ℕ) (xs : List ℕ) → IsDistinct xs → IsDistinct (add_index i xs)
unfolding add_index
add_index-IsDistinct i xs h = elim (Bool-cases (contains xs i)) [
  | inl old ↦ rw old h
  | inr new ↦ rw new (IsDistinct-snoc xs i new h)
]

-- Dropping the first occurrence drops the position, where it stands once.
pub contains-drop_index :
    (i j : ℕ) (xs : List ℕ)
    → IsDistinct xs
    → contains (drop_index i xs) j ≡ (not (i == j) && contains xs j)
unfolding drop_index
contains-drop_index i j [] h = ground arith
contains-drop_index i j (x ∷ xs) h = ground (arith, contains-drop_index i j xs h.1)

pub drop_index-IsDistinct : (i : ℕ) (xs : List ℕ) → IsDistinct xs → IsDistinct (drop_index i xs)
unfolding drop_index
drop_index-IsDistinct i [] h = tt
drop_index-IsDistinct i (x ∷ xs) h = elim (Bool-cases (x == i)) [
  | inl same ↦ rw same h.1
  | inr other ↦
      rw other (ground (arith, contains-drop_index i x xs h.1), drop_index-IsDistinct i xs h.1)
]

module _ {ℓ κ} {A : Type ℓ} (P : A → Type κ) where
  -- Every element, at its position.
  abbrev pub AllNodes : List A → Type (ℓ ⊔ κ)
  AllNodes xs = (i : ℕ) (x : A) → get_elem? xs i ≡ some x → P x

  pub AllNodes-snoc : (xs : List A) (x : A) → AllNodes xs → P x → AllNodes (xs ++ x ∷ [])
  AllNodes-snoc [] x h p zero y at = subst P (some-injective _ _ at) p
  AllNodes-snoc [] x h p (suc i) y at = cc
  AllNodes-snoc (z ∷ xs) x h p zero y at = h zero y at
  AllNodes-snoc (z ∷ xs) x h p (suc i) y at = AllNodes-snoc xs x (λ j w e. h (suc j) w e) p i y at

  pub AllNodes-modify :
      (k : ℕ) (g : A → A) (xs : List A)
      → ((x : A) → P x → P (g x))
      → AllNodes xs
      → AllNodes (modify k g xs)
  AllNodes-modify k g [] keep h i y at = cc
  AllNodes-modify zero g (z ∷ xs) keep h zero y at =
      subst P (some-injective _ _ at) (keep z (h zero z refl))
  AllNodes-modify zero g (z ∷ xs) keep h (suc i) y at = h (suc i) y at
  AllNodes-modify (suc k) g (z ∷ xs) keep h zero y at = h zero y at
  AllNodes-modify (suc k) g (z ∷ xs) keep h (suc i) y at =
      AllNodes-modify k g xs keep (λ j w e. h (suc j) w e) i y at

  -- A map that gives the property to every element that has another one.
  pub AllNodes-map {μ} :
      {B : Type μ} (g : B → A) (xs : List B)
      → ((i : ℕ) (x : B) → get_elem? xs i ≡ some x → P (g x))
      → AllNodes (map g xs)
  AllNodes-map g [] h i y at = cc
  AllNodes-map g (z ∷ xs) h zero y at = subst P (some-injective _ _ at) (h zero z refl)
  AllNodes-map g (z ∷ xs) h (suc i) y at = AllNodes-map g xs (λ j w e. h (suc j) w e) i y at
