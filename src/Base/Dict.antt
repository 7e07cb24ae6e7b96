-- ===== src/Base/Dict.antt =====
-- Python dictionaries as association lists in order of insertion. A dictionary holds a key once;
-- a write to a key that is there keeps its place.
use mathlib.Core.Path.{◌≡◌, refl}
use mathlib.Core.Logic.{ite}
use mathlib.Core.Option.{Option, none, some}
use mathlib.Core.List.{List, [], ◌∷◌}
use native.Mathlib.Omega.{arith}

-- Both branches of a test.
pub ite_elim {ℓ κ μ} :
    {X : Type ℓ} {A : Type κ} (P : A → Type μ) (test : Dec X) {a b : A}
    → (X → P a)
    → (¬ X → P b)
    → P (ite test a b)
ite_elim P (yes x) f g = f x
ite_elim P (no n) f g = g n

module _ {ℓ} {K V : Type ℓ} (dec : Discrete K) where
  -- `d.get(k)`
  unfoldable pub get : K → List (K × V) → Option V
  get k [] = none
  get k ((j, v) ∷ d) = ite (dec j k) (some v) (get k d)

  -- `d[k] = v`
  unfoldable pub put : K → V → List (K × V) → List (K × V)
  put k v [] = (k, v) ∷ []
  put k v ((j, w) ∷ d) = ite (dec j k) ((j, v) ∷ d) ((j, w) ∷ put k v d)

  -- `d.pop(k, None)`
  unfoldable pub pop : K → List (K × V) → List (K × V)
  pop k [] = []
  pop k ((j, w) ∷ d) = let rest = pop k d in ite (dec j k) rest ((j, w) ∷ rest)

  pub get-put :
      (k j : K) (v : V) (d : List (K × V)) → get j (put k v d) ≡ ite (dec k j) (some v) (get j d)
  unfolding get put
  get-put k j v [] = refl
  get-put k j v ((i, w) ∷ d) = ground (arith, get-put k j v d)

  pub get-pop : (k j : K) (d : List (K × V)) → get j (pop k d) ≡ ite (dec k j) none (get j d)
  unfolding get pop
  get-pop k j [] = ground arith
  get-pop k j ((i, w) ∷ d) = ground (arith, get-pop k j d)

  pub pop-absent : (k : K) (d : List (K × V)) → get k d ≡ none → pop k d ≡ d
  unfolding get pop
  pop-absent k [] h = refl
  pop-absent k ((i, w) ∷ d) h = ground (arith, pop-absent k d)

  -- A dictionary holds a key once.
  abbrev pub IsDict : List (K × V) → Type ℓ
  IsDict [] = Unit
  IsDict ((k, v) ∷ d) = (get k d ≡ none) × IsDict d

  pub put-IsDict : (k : K) (v : V) (d : List (K × V)) → IsDict d → IsDict (put k v d)
  unfolding get put
  put-IsDict k v [] u = (refl, tt)
  put-IsDict k v ((j, w) ∷ d) u =
      ite_elim IsDict (dec j k) (λ same. u)
        (λ other. (ground (arith, get-put k j v d, u.0), put-IsDict k v d u.1))
