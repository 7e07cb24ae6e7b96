-- ===== src/Memory/Detached.antt =====
-- The layers while `remove_fact` takes a fact out: nodes keep their keys, and the other facts stay listed.
use exeio_memgraphrag.Base.{
  ℕ, ℤ, pos, negsuc, List, [], ◌∷◌, ◌≡◌, ◌≢◌, refl, ◌∙◌, get_elem?, modify, arith, Option-cases,
  inl, inr, ◌⊎◌, get_elem?-modify, AllNodes, AllNodes-modify,
}
use exeio_memgraphrag.Base.Index.{key_at, key_at-modify}
use exeio_memgraphrag.Memory.Nodes.{SchemaNode, PassageNode}
use exeio_memgraphrag.Memory.Link.{drop_schema_fact, count_schema}
use exeio_memgraphrag.Memory.Edit.{drop_passage_fact, detach_schema, modify_each}
use exeio_memgraphrag.Memory.Relation.{lists}
use exeio_memgraphrag.Memory.Invariant.{IsTidy, facts_of_schema, facts_of_passage}
use exeio_memgraphrag.Memory.Linked.{drop_schema_fact-IsTidy}
use exeio_memgraphrag.Memory.Renumber.{contains-drop_index_other}

-- Layers whose nodes drop a fact that goes: keys stay, and so does every other fact that is listed.
module _ (k : ℕ) where
  abbrev pub forget : SchemaNode → SchemaNode
  forget n = count_schema (drop_schema_fact k n)

  pub detach_schema-cases :
      (z : ℤ) (xs : List SchemaNode)
      → (detach_schema k z xs ≡ xs) ⊎ ((s : ℕ) × (detach_schema k z xs ≡ modify s forget xs))
  unfolding detach_schema
  detach_schema-cases (negsuc _) xs = inl refl
  detach_schema-cases (pos s) xs = inr (s, refl)

  pub key_at-detach_schema :
      {K : Type 0} (key : SchemaNode → K) (z : ℤ) (xs : List SchemaNode) (i : ℕ)
      → ((n : SchemaNode) → key (forget n) ≡ key n)
      → key_at key (detach_schema k z xs) i ≡ key_at key xs i
  key_at-detach_schema key z xs i keeps = elim (detach_schema-cases z xs) [
    | inl same ↦ rw same
    | inr (s, changed) ↦ rw changed (key_at-modify key s i forget xs keeps)
  ]

  pub detach_schema-AllNodes :
      (z : ℤ) (xs : List SchemaNode) → AllNodes IsTidy xs → AllNodes IsTidy (detach_schema k z xs)
  detach_schema-AllNodes z xs tidy = elim (detach_schema-cases z xs) [
    | inl same ↦ rw same tidy
    | inr (s, changed) ↦
        rw changed (AllNodes-modify IsTidy s forget xs (drop_schema_fact-IsTidy k) tidy)
  ]

  pub lists-detach_schema :
      (z : ℤ) (xs : List SchemaNode) (s j : ℕ)
      → k ≢ j
      → lists facts_of_schema (detach_schema k z xs) s j ≡ lists facts_of_schema xs s j
  unfolding detach_schema lists
  lists-detach_schema (negsuc _) xs s j other = refl
  lists-detach_schema (pos t) xs s j other = elim (Option-cases (get_elem? xs s)) [
    | inl gone ↦ ground (arith, get_elem?-modify t s forget xs)
    | inr (n, there) ↦
        ground (
          arith,
          get_elem?-modify t s forget xs,
          contains-drop_index_other k j n.fact_indices other,
        )
  ]

  pub key_at-modify_each :
      {K : Type 0} (key : PassageNode → K) (ps : List ℕ) (xs : List PassageNode) (i : ℕ)
      → ((n : PassageNode) → key (drop_passage_fact k n) ≡ key n)
      → key_at key (modify_each (drop_passage_fact k) ps xs) i ≡ key_at key xs i
  unfolding modify_each
  key_at-modify_each key [] xs i keeps = refl
  key_at-modify_each key (p ∷ ps) xs i keeps =
      key_at-modify_each key ps (modify p (drop_passage_fact k) xs) i keeps
      ∙ key_at-modify key p i (drop_passage_fact k) xs keeps

  pub lists-modify_each :
      (ps : List ℕ) (xs : List PassageNode) (p j : ℕ)
      → k ≢ j
      → lists facts_of_passage (modify_each (drop_passage_fact k) ps xs) p j
        ≡ lists facts_of_passage xs p j
  unfolding modify_each
  lists-modify_each [] xs p j other = refl
  lists-modify_each (q ∷ ps) xs p j other =
      lists-modify_each ps (modify q (drop_passage_fact k) xs) p j other
      ∙ unfold lists in
        elim (Option-cases (get_elem? xs p)) [
          | inl gone ↦ ground (arith, get_elem?-modify q p (drop_passage_fact k) xs)
          | inr (n, there) ↦ ground (
            arith,
            get_elem?-modify q p (drop_passage_fact k) xs,
            contains-drop_index_other k j n.fact_indices other,
          )
        ]
