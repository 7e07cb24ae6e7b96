-- ===== src/Base/Raising.antt =====
-- Code that may raise. What a raise leaves behind in a half-changed object is not modelled.
use Prim.Native.Nat.{ℕ}
use mathlib.Core.Path.{◌≡◌}
use mathlib.Core.Option.{none, some}
use mathlib.Core.List.{List}
use exeio_memgraphrag.Base.Lists.{get_elem?, modify}

pub data Error : Type 0 where
  index_error key_error value_error corrupt_kv_file_error : Error

pub data Result {ℓ} (A : Type ℓ) : Type ℓ where
  ok : A → Result A
  raise : Error → Result A

infixl 5 ◌>>=◌
abbrev pub ◌>>=◌ {ℓ κ} : {A : Type ℓ} {B : Type κ} → Result A → (A → Result B) → Result B
ok a >>= f = f a
raise e >>= f = raise e

module _ {ℓ} {A : Type ℓ} where
  -- `xs[i]`
  abbrev pub index : List A → ℕ → Result A
  index xs i = elim (get_elem? xs i) [ none ↦ raise index_error | some x ↦ ok x ]

  -- a change of the object `xs[i]`
  abbrev pub update : List A → ℕ → (A → A) → Result (List A)
  update xs i f = elim (get_elem? xs i) [ none ↦ raise index_error | some x ↦ ok (modify i f xs) ]

  pub ok-injective : {a b : A} → ok a ≡ ok b → a ≡ b
  ok-injective e = cc
