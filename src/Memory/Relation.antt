-- ===== src/Memory/Relation.antt =====
-- A layer whose nodes hold lists of positions, read as a relation between positions.
use exeio_memgraphrag.Base.{
  ℕ, ◌<◌, List, [], ◌∷◌, ◌++◌, Bool, true, false, ◌&&◌, ◌||◌, none, some, ◌≡◌, ltb, ◌==◌, length,
  get_elem?, modify, contains, add_index, arith, not, ◌≤◌, drop_index, contains-drop_index,
  IsDistinct, AllNodes, get_elem?-modify, get_elem?-snoc, get_elem?_of_le, get_elem?-ne-none,
  Option-cases, inl, inr, get_elem?-length, contains-add_index, get_elem?-map, map,
}

module _ {A : Type 0} (field : A → List ℕ) where
  -- `j in xs[i].field`, and false where there is no `xs[i]`
  unfoldable pub lists : List A → ℕ → ℕ → Bool
  lists xs i j = elim (get_elem? xs i) [ none ↦ false | some x ↦ contains (field x) j ]

  pub lists-lt : (xs : List A) (i j : ℕ) → lists xs i j ≡ true → i < length xs
  unfolding lists
  lists-lt xs i j h = ground (arith, get_elem?_of_le i xs)

  -- A change that leaves the field alone.
  pub lists-modify_other :
      (xs : List A) (k i j : ℕ) (g : A → A)
      → ((x : A) → field (g x) ≡ field x)
      → lists (modify k g xs) i j ≡ lists xs i j
  unfolding lists
  lists-modify_other xs k i j g same = grind (arith, get_elem?-modify k i g xs, same)

  -- A change that adds a position to the field.
  pub lists-modify_add :
      (xs : List A) (k p i j : ℕ) (g : A → A)
      → ((x : A) → field (g x) ≡ add_index p (field x))
      → lists (modify k g xs) i j ≡ ((k == i && p == j && ltb k (length xs)) || lists xs i j)
  unfolding lists
  lists-modify_add xs k p i j g add = elim (Option-cases (get_elem? xs i)) [
    | inl gone ↦ ground (arith, get_elem?-modify k i g xs, get_elem?-ne-none i xs)
    | inr (x, there) ↦ ground (
      arith,
      get_elem?-modify k i g xs,
      get_elem?_of_le i xs,
      add x,
      contains-add_index p j (field x),
    )
  ]

  pub lists_of_le : (xs : List A) (i j : ℕ) → length xs ≤ i → lists xs i j ≡ false
  unfolding lists
  lists_of_le xs i j h = rw (get_elem?_of_le i xs h, lists)

  -- A change that drops a position from the field, where it stands once at most.
  pub lists-modify_drop :
      (xs : List A) (k p i j : ℕ) (g : A → A)
      → ((x : A) → field (g x) ≡ drop_index p (field x))
      → AllNodes (λ x. IsDistinct (field x)) xs
      → lists (modify k g xs) i j ≡ (not (k == i && p == j) && lists xs i j)
  unfolding lists
  lists-modify_drop xs k p i j g drop distinct = elim (Option-cases (get_elem? xs i)) [
    | inl gone ↦ ground (arith, get_elem?-modify k i g xs)
    | inr (x, there) ↦ ground (
      arith,
      get_elem?-modify k i g xs,
      drop x,
      contains-drop_index p j (field x) (distinct i x there),
    )
  ]

  pub lists-snoc :
      (xs : List A) (x : A) (i j : ℕ) → field x ≡ [] → lists (xs ++ x ∷ []) i j ≡ lists xs i j
  unfolding lists
  lists-snoc xs x i j fresh = ground (arith, get_elem?-snoc i xs x, get_elem?-length xs)

  pub lists-map_other :
      (xs : List A) (i j : ℕ) (g : A → A)
      → ((x : A) → field (g x) ≡ field x)
      → lists (map g xs) i j ≡ lists xs i j
  unfolding lists
  lists-map_other xs i j g same = grind (arith, get_elem?-map g i xs, same)
