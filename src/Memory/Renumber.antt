-- ===== src/Memory/Renumber.antt =====
-- How positions of facts move when one fact is taken out.
use exeio_memgraphrag.Base.{
  ℕ, zero, suc, ◌+◌, ◌<◌, List, [], ◌∷◌, ◌&&◌, ◌≡◌, ◌≢◌, refl, sym, ap, ◌∙◌, some, length, delete,
  contains, drop_index, arith, ltb, if◌then◌else◌, Option-cases, inl, inr, get_elem?-delete,
  ℕ_discrete, IsDistinct,
}
use exeio_memgraphrag.Base.Dict.{get}
use exeio_memgraphrag.Base.Index.{
  HasDistinctKeys, IsPlaced, IsNumbered, key_at, key_at-lt, key_at_of_lt, enumerate_into,
  enumerate-IsIndex,
}
use exeio_memgraphrag.Memory.Nodes.{FactNode}
use exeio_memgraphrag.Memory.Edit.{renumber, remap}
use exeio_memgraphrag.Memory.Invariant.{fact_position}

-- Where the fact at `j` stood before the one at `k` went.
abbrev pub before : ℕ → ℕ → ℕ
before k j = if ltb j k then j else suc j

module _ {K : Type 0} (key : FactNode → K) where
  pub key_at-delete :
      (k j : ℕ) (xs : List FactNode) → key_at key (delete k xs) j ≡ key_at key xs (before k j)
  unfolding key_at
  key_at-delete k j xs = rw get_elem?-delete

  pub HasDistinctKeys-delete :
      (dec : Discrete K) (k : ℕ) (xs : List FactNode)
      → HasDistinctKeys dec key xs
      → HasDistinctKeys dec key (delete k xs)
  HasDistinctKeys-delete dec k xs apart x i j p q = ground (
    arith,
    apart x (before k i) (before k j) (sym (key_at-delete k i xs) ∙ p)
        (sym (key_at-delete k j xs) ∙ q),
  )

  pub key_at-renumber :
      (i : ℕ) (xs : List FactNode) (j : ℕ)
      → ((f : FactNode) (n : ℕ) → key (record f { idx = n }) ≡ key f)
      → key_at key (renumber i xs) j ≡ key_at key xs j
  unfolding key_at renumber
  key_at-renumber i [] j same = refl
  key_at-renumber i (x ∷ xs) zero same = ap some (same x i)
  key_at-renumber i (x ∷ xs) (suc j) same = key_at-renumber (suc i) xs j same

pub renumber-IsNumbered : (i : ℕ) (xs : List FactNode) → IsNumbered fact_position i (renumber i xs)
unfolding renumber
renumber-IsNumbered i [] = tt
renumber-IsNumbered i (x ∷ xs) = (refl, renumber-IsNumbered (suc i) xs)

pub renumber-positions :
    (i : ℕ) (xs : List FactNode) (j n : ℕ)
    → key_at fact_position (renumber i xs) j ≡ some n
    → n ≡ i + j
unfolding key_at renumber
renumber-positions i [] j n h = cc
renumber-positions i (x ∷ xs) zero n h = ground arith
renumber-positions i (x ∷ xs) (suc j) n h = omega (arith, renumber-positions (suc i) xs j n h)

-- The dictionary from old positions to new ones, after the fact at `k` went.
pub record Moves (d : List (ℕ × ℕ)) (k len : ℕ) : Type 0 where
  pub to_new : (j : ℕ) → j < len → get ℕ_discrete (before k j) d ≡ some j
  pub from_old : (i j : ℕ) → get ℕ_discrete i d ≡ some j → (before k j ≡ i) × (j < len)

pub enumerate_into-Moves :
    (k : ℕ) (xs : List FactNode)
    → IsPlaced fact_position xs
    → Moves (enumerate_into ℕ_discrete fact_position 0 (delete k xs) []) k (length (delete k xs))
enumerate_into-Moves k xs placed =
    let rest = delete k xs in
    let apart =
      HasDistinctKeys-delete fact_position ℕ_discrete k xs
        (λ x i j p q. sym (placed i x p) ∙ placed j x q) in
    let fits = enumerate-IsIndex ℕ_discrete fact_position rest apart in
    record {
      to_new = λ j h.
          let (n, at) = key_at_of_lt fact_position rest j h in
          let stood = placed (before k j) n (sym (key_at-delete fact_position k j xs) ∙ at) in
          fits.complete (before k j) j (at ∙ ap some stood);
      from_old = λ i j h.
          let at = fits.sound i j h in
          (
            sym (placed (before k j) i (sym (key_at-delete fact_position k j xs) ∙ at)),
            key_at-lt fact_position rest j i at,
          );
    }

module _ {d : List (ℕ × ℕ)} {k len : ℕ} (moves : Moves d k len) where
  pub contains-remap :
      (xs : List ℕ) (j : ℕ) → contains (remap d xs) j ≡ (ltb j len && contains xs (before k j))
  unfolding remap
  contains-remap [] j = ground arith
  contains-remap (x ∷ xs) j = elim (Option-cases (get ℕ_discrete x d)) [
    | inl gone ↦ ground (arith, contains-remap xs j, moves.to_new j)
    | inr (n, there) ↦ ground (arith, contains-remap xs j, moves.to_new j, moves.from_old x n)
  ]

  pub remap-IsDistinct : (xs : List ℕ) → IsDistinct xs → IsDistinct (remap d xs)
  unfolding remap
  remap-IsDistinct [] h = tt
  remap-IsDistinct (x ∷ xs) h = elim (Option-cases (get ℕ_discrete x d)) [
    | inl gone ↦ rw (gone, remap) (remap-IsDistinct xs h.1)
    | inr (n, there) ↦
        rw (there, remap)
          (
            ground (arith, contains-remap xs n, moves.from_old x n there, h.0),
            remap-IsDistinct xs h.1,
          )
  ]

-- Dropping one position leaves the others.
pub contains-drop_index_other :
    (i j : ℕ) (xs : List ℕ) → i ≢ j → contains (drop_index i xs) j ≡ contains xs j
unfolding drop_index
contains-drop_index_other i j [] h = refl
contains-drop_index_other i j (x ∷ xs) h = ground (arith, contains-drop_index_other i j xs h)
