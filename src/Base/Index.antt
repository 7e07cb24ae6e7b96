-- ===== src/Base/Index.antt =====
-- A dictionary from keys to positions that indexes a list, as each layer of the memory has one.
use Prim.Native.Nat.{ℕ, zero, suc, ◌+◌, ◌<◌}
use mathlib.Core.Path.{◌≡◌, refl, sym, ◌∙◌, ap}
use mathlib.Core.Logic.{◌≢◌, ◌⊎◌, inl, inr}
use mathlib.Core.Option
use mathlib.Core.Option.{Option, none, some, some-injective}
use mathlib.Core.List.{List, [], ◌∷◌, ◌++◌, map}
use native.Mathlib.Omega.{arith}
use native.Mathlib.Decide.{dec_lt}
use exeio_memgraphrag.Base.Tests.{◌==◌, if◌then◌else◌}
use exeio_memgraphrag.Base.Lists.{
  length, get_elem?, modify, get_elem?-modify, get_elem?-snoc, get_elem?-length, get_elem?_of_le,
  get_elem?_of_lt, get_elem?-map,
}
use exeio_memgraphrag.Base.Dict.{get, put, get-put}

module _ {A K : Type 0} (key : A → K) where
  -- The key of the element at a position.
  unfoldable pub key_at : List A → ℕ → Option K
  key_at xs i = Option.map key (get_elem? xs i)

  pub key_at-snoc :
      (xs : List A) (x : A) (i : ℕ)
      → key_at (xs ++ x ∷ []) i ≡ (if i == length xs then some (key x) else key_at xs i)
  unfolding key_at
  key_at-snoc xs x i = ground (arith, get_elem?-snoc i xs x)

  pub key_at-length : (xs : List A) → key_at xs (length xs) ≡ none
  unfolding key_at
  key_at-length xs = rw get_elem?-length

  -- A change that keeps the key keeps all keys.
  pub key_at-modify :
      (i j : ℕ) (f : A → A) (xs : List A)
      → ((x : A) → key (f x) ≡ key x)
      → key_at (modify i f xs) j ≡ key_at xs j
  unfolding key_at
  key_at-modify i j f xs same = grind (arith, get_elem?-modify i j f xs, same)

  -- A change of every element that keeps the keys.
  pub key_at-map :
      (f : A → A) (xs : List A) (i : ℕ)
      → ((x : A) → key (f x) ≡ key x)
      → key_at (map f xs) i ≡ key_at xs i
  unfolding key_at
  key_at-map f xs i same = grind (arith, get_elem?-map f i xs, same)

  pub key_at_of_lt : (xs : List A) (i : ℕ) → i < length xs → (k : K) × (key_at xs i ≡ some k)
  unfolding key_at
  key_at_of_lt xs i h = let (x, at) = get_elem?_of_lt i xs h in (key x, ap (Option.map key) at)

  pub key_at-lt : (xs : List A) (i : ℕ) (k : K) → key_at xs i ≡ some k → i < length xs
  unfolding key_at
  key_at-lt xs i k h = elim (dec_lt i (length xs)) [
    | yes p ↦ p
    | no p ↦ ground (arith, get_elem?_of_le i xs)
  ]

module _ {A : Type 0} (position : A → ℕ) where
  -- Each element holds its own position.
  abbrev pub IsPlaced : List A → Type 0
  IsPlaced xs = (i j : ℕ) → key_at position xs i ≡ some j → j ≡ i

  -- Elements that hold their positions, counted from `i`.
  abbrev pub IsNumbered : ℕ → List A → Type 0
  IsNumbered i [] = Unit
  IsNumbered i (x ∷ xs) = (position x ≡ i) × IsNumbered (suc i) xs

  pub IsPlaced-snoc :
      (xs : List A) (x : A) → IsPlaced xs → position x ≡ length xs → IsPlaced (xs ++ x ∷ [])
  IsPlaced-snoc xs x placed last i j h = ground (arith, key_at-snoc position xs x i, placed i j)

  pub IsPlaced-modify :
      (k : ℕ) (f : A → A) (xs : List A)
      → IsPlaced xs
      → ((x : A) → position (f x) ≡ position x)
      → IsPlaced (modify k f xs)
  IsPlaced-modify k f xs placed same i j h =
      placed i j (sym (key_at-modify position k i f xs same) ∙ h)

module _ {A K : Type 0} (dec : Discrete K) (key : A → K) where
  -- The dictionary gives exactly the positions of the keys; so no key stands twice.
  pub record IsIndex (d : List (K × ℕ)) (xs : List A) : Type 0 where
    pub sound : (k : K) (i : ℕ) → get dec k d ≡ some i → key_at key xs i ≡ some k
    pub complete : (k : K) (i : ℕ) → key_at key xs i ≡ some k → get dec k d ≡ some i

  pub IsIndex-nil : IsIndex [] []
  unfolding get key_at
  IsIndex-nil = record { sound = λ k i h. cc; complete = λ k i h. cc }

  module _ {d : List (K × ℕ)} {xs : List A} (fits : IsIndex d xs) where
    pub IsIndex-snoc :
        (x : A) → get dec (key x) d ≡ none → IsIndex (put dec (key x) (length xs) d) (xs ++ x ∷ [])
    IsIndex-snoc x new = record {
      sound = λ k i h. ground (
        arith,
        get-put dec (key x) k (length xs) d,
        key_at-snoc key xs x i,
        fits.sound k i,
        key_at-length key xs,
      );
      complete = λ k i h.
          ground
            (arith, get-put dec (key x) k (length xs) d, key_at-snoc key xs x i, fits.complete k i);
    }

    -- Lists with the same keys have the same index.
    pub IsIndex-same_keys :
        {ys : List A} → ((i : ℕ) → key_at key ys i ≡ key_at key xs i) → IsIndex d ys
    IsIndex-same_keys same = record {
      sound = λ k i h. same i ∙ fits.sound k i h;
      complete = λ k i h. fits.complete k i (sym (same i) ∙ h);
    }

  -- `{key(x): i for i, x in enumerate(xs)}`, counted from `i` and added to `d`
  unfoldable pub enumerate_into : ℕ → List A → List (K × ℕ) → List (K × ℕ)
  enumerate_into i [] d = d
  enumerate_into i (x ∷ xs) d = enumerate_into (suc i) xs (put dec (key x) i d)

  -- `{key(x): position(x) for x in xs}`, added to `d`
  unfoldable pub index_into : (A → ℕ) → List A → List (K × ℕ) → List (K × ℕ)
  index_into position [] d = d
  index_into position (x ∷ xs) d = index_into position xs (put dec (key x) (position x) d)

  pub index_into-eq-enumerate :
      (position : A → ℕ) (i : ℕ) (xs : List A) (d : List (K × ℕ))
      → IsNumbered position i xs
      → index_into position xs d ≡ enumerate_into i xs d
  unfolding index_into enumerate_into
  index_into-eq-enumerate position i [] d h = refl
  index_into-eq-enumerate position i (x ∷ xs) d h =
      rw h.0 (index_into-eq-enumerate position (suc i) xs (put dec (key x) i d) h.1)

  -- Each key stands at one position only.
  abbrev pub HasDistinctKeys : List A → Type 0
  HasDistinctKeys xs =
      (k : K) (i j : ℕ) → key_at key xs i ≡ some k → key_at key xs j ≡ some k → i ≡ j

  HasDistinctKeys-tail : (x : A) (xs : List A) → HasDistinctKeys (x ∷ xs) → HasDistinctKeys xs
  unfolding key_at
  HasDistinctKeys-tail x xs apart k i j p q = omega (arith, apart k (suc i) (suc j) p q)

  get-enumerate_into_absent :
      (i : ℕ) (xs : List A) (d : List (K × ℕ)) (k : K)
      → ((j : ℕ) → key_at key xs j ≢ some k)
      → get dec k (enumerate_into i xs d) ≡ get dec k d
  unfolding enumerate_into key_at
  get-enumerate_into_absent i [] d k absent = refl
  get-enumerate_into_absent i (x ∷ xs) d k absent =
      get-enumerate_into_absent (suc i) xs (put dec (key x) i d) k (λ j. absent (suc j))
      ∙ ground (arith, get-put dec (key x) k i d, absent 0)

  get-enumerate_into_present :
      (i : ℕ) (xs : List A) (d : List (K × ℕ)) (k : K) (j : ℕ)
      → HasDistinctKeys xs
      → key_at key xs j ≡ some k
      → get dec k (enumerate_into i xs d) ≡ some (i + j)
  unfolding enumerate_into key_at
  get-enumerate_into_present i [] d k j apart at = cc
  get-enumerate_into_present i (x ∷ xs) d k zero apart at =
      get-enumerate_into_absent (suc i) xs (put dec (key x) i d) k
        (λ j p. absurd (omega (arith, apart k 0 (suc j) at p)))
      ∙ ground (arith, get-put dec (key x) k i d)
  get-enumerate_into_present i (x ∷ xs) d k (suc j) apart at = ground (
    arith,
    get-enumerate_into_present (suc i) xs (put dec (key x) i d) k j
        (HasDistinctKeys-tail x xs apart) at,
  )

  find_key :
      (k : K) (xs : List A)
      → ((j : ℕ) × (key_at key xs j ≡ some k)) ⊎ ((j : ℕ) → key_at key xs j ≢ some k)
  unfolding key_at
  find_key k [] = inr (λ j e. cc)
  find_key k (x ∷ xs) = elim (dec (key x) k) [
    | yes same ↦ inl (0, ap some same)
    | no other ↦ elim (find_key k xs) [
      | inl (j, at) ↦ inl (suc j, at)
      | inr absent ↦ inr (elim [ zero ↦ λ e. other (some-injective _ _ e) | suc j ↦ absent j ])
    ]
  ]

  -- A rebuilt dictionary indexes a list with distinct keys.
  pub enumerate-IsIndex : (xs : List A) → HasDistinctKeys xs → IsIndex (enumerate_into 0 xs []) xs
  unfolding get
  enumerate-IsIndex xs apart = record {
    sound = λ k i h. elim (find_key k xs) [
      | inl (j, at) ↦ ground (arith, get-enumerate_into_present 0 xs [] k j apart at)
      | inr absent ↦ cc (get-enumerate_into_absent 0 xs [] k absent)
    ];
    complete = λ k i at. ground (arith, get-enumerate_into_present 0 xs [] k i apart at);
  }

  -- What a dictionary indexes has distinct keys.
  pub IsIndex-HasDistinctKeys : {d : List (K × ℕ)} {xs : List A} → IsIndex d xs → HasDistinctKeys xs
  IsIndex-HasDistinctKeys fits k i j p q =
      some-injective _ _ (sym (fits.complete k i p) ∙ fits.complete k j q)
