-- ===== src/Memory/Read.antt =====
-- The queries of the memory. A position is a natural number here, so that the half `0 <= idx` of
-- each range test holds; for a fact's `schema_idx`, which may be -1, it is written out.
use exeio_memgraphrag.Base.{
  ℕ, ℤ, pos, negsuc, List, [], ◌∷◌, Option, none, some, get_elem?, Result, ok, index, ◌>>=◌,
}
use exeio_memgraphrag.Memory.Nodes.{SchemaNode, FactNode, PassageNode, Memory}

unfoldable pub get_schema_by_idx : Memory → ℤ → Option SchemaNode
get_schema_by_idx m (pos idx) = get_elem? m.schema_layer idx
get_schema_by_idx m (negsuc _) = none

unfoldable pub get_fact_by_idx : Memory → ℕ → Option FactNode
get_fact_by_idx m idx = get_elem? m.fact_layer idx

unfoldable pub get_passage_by_idx : Memory → ℕ → Option PassageNode
get_passage_by_idx m idx = get_elem? m.passage_layer idx

-- `[layer[i] for i in indices]`
unfoldable pub index_all {ℓ} : {A : Type ℓ} → List A → List ℕ → Result (List A)
index_all layer [] = ok []
index_all layer (i ∷ indices) = do x ← index layer i; xs ← index_all layer indices; ok (x ∷ xs)

unfoldable pub get_facts_by_schema : Memory → ℤ → Result (List FactNode)
unfolding get_schema_by_idx index_all
get_facts_by_schema m schema_idx = elim (get_schema_by_idx m schema_idx) [
  | none ↦ ok []
  | some schema ↦ index_all m.fact_layer schema.fact_indices
]

unfoldable pub get_passages_by_fact : Memory → ℕ → Result (List PassageNode)
unfolding get_fact_by_idx index_all
get_passages_by_fact m fact_idx = elim (get_fact_by_idx m fact_idx) [
  | none ↦ ok []
  | some fact ↦ index_all m.passage_layer fact.passage_indices
]

unfoldable pub get_facts_by_passage : Memory → ℕ → Result (List FactNode)
unfolding get_passage_by_idx index_all
get_facts_by_passage m passage_idx = elim (get_passage_by_idx m passage_idx) [
  | none ↦ ok []
  | some passage ↦ index_all m.fact_layer passage.fact_indices
]

unfoldable pub get_schema_by_fact : Memory → ℕ → Option SchemaNode
unfolding get_fact_by_idx get_schema_by_idx
get_schema_by_fact m fact_idx = elim (get_fact_by_idx m fact_idx) [
  | none ↦ none
  | some fact ↦ get_schema_by_idx m fact.schema_idx
]
