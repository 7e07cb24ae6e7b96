-- ===== src/Memory/Restored.antt =====
-- `from_dict` of memgraphrag/memory.py gives back what `to_dict` was given.
use exeio_memgraphrag.Base.{
  ℕ, suc, List, [], ◌∷◌, ◌++◌, ◌+◌, ◌≡◌, some, refl, sym, ap, ◌∙◌, map, foldl, arith, append_assoc,
  append-nil, subst,
}
use exeio_memgraphrag.Base.Index.{
  IsIndex, IsNumbered, IsPlaced, key_at, index_into, index_into-eq-enumerate, enumerate-IsIndex,
  IsIndex-HasDistinctKeys,
}
use exeio_memgraphrag.Text.Defs.{Text-discrete}
use exeio_memgraphrag.Text.Canonical.{Unicode}
use exeio_memgraphrag.Memory.Nodes.{
  SchemaNode, FactNode, PassageNode, Memory, empty_memory, Triple-discrete,
}
use exeio_memgraphrag.Memory.Dump.{
  schema_to_item, fact_to_item, passage_to_item, to_dict, schema_of_item, fact_of_item,
  passage_of_item, restore_schema, restore_fact, restore_passage, from_dict,
}
use exeio_memgraphrag.Memory.Invariant.{
  IsSound, schema_key, fact_key, chunk_key, schema_position, fact_position, passage_position,
}

module _ {A : Type 0} (position : A → ℕ) where
  IsPlaced-IsNumbered :
      (n : ℕ) (xs : List A)
      → ((i j : ℕ) → key_at position xs i ≡ some j → j ≡ n + i)
      → IsNumbered position n xs
  unfolding key_at
  IsPlaced-IsNumbered n [] placed = tt
  IsPlaced-IsNumbered n (x ∷ xs) placed = (
    omega (arith, placed 0 (position x) refl),
    IsPlaced-IsNumbered (suc n) xs (λ i j h. omega (arith, placed (suc i) j h)),
  )

-- The dictionary that is made again indexes the same list.
index_into-IsIndex :
    {A K : Type 0} (dec : Discrete K) (key : A → K) (position : A → ℕ) (d : List (K × ℕ))
    (xs : List A)
    → IsIndex dec key d xs
    → IsPlaced position xs
    → IsIndex dec key (index_into dec key position xs []) xs
index_into-IsIndex dec key position d xs fits placed =
    rw
      (index_into-eq-enumerate dec key position 0 xs []
        (IsPlaced-IsNumbered position 0 xs (λ i j h. omega (arith, placed i j h))))
      (enumerate-IsIndex dec key xs (IsIndex-HasDistinctKeys dec key fits))

module _ (u : Unicode) where
  schemas_restored :
      (m : Memory) (nodes : List SchemaNode)
      → foldl (restore_schema u) m (map schema_to_item nodes) ≡ record m {
        schema_layer = m.schema_layer ++ nodes;
        schema_to_idx =
            index_into Triple-discrete (schema_key u) schema_position nodes m.schema_to_idx;
      }
  unfolding schema_to_item schema_of_item index_into
  schemas_restored m [] = λ i. record m { schema_layer = sym (append-nil m.schema_layer) i }
  schemas_restored m (n ∷ nodes) =
      schemas_restored (restore_schema u m (schema_to_item n)) nodes ∙ λ i. record m {
        schema_layer = append_assoc m.schema_layer (n ∷ []) nodes i;
        schema_to_idx =
            index_into Triple-discrete (schema_key u) schema_position (n ∷ nodes) m.schema_to_idx;
      }

  facts_restored :
      (m : Memory) (nodes : List FactNode)
      → foldl (restore_fact u) m (map fact_to_item nodes) ≡ record m {
        fact_layer = m.fact_layer ++ nodes;
        fact_to_idx = index_into Triple-discrete (fact_key u) fact_position nodes m.fact_to_idx;
      }
  unfolding fact_to_item fact_of_item index_into
  facts_restored m [] = λ i. record m { fact_layer = sym (append-nil m.fact_layer) i }
  facts_restored m (n ∷ nodes) = facts_restored (restore_fact u m (fact_to_item n)) nodes ∙ λ i.
      record m {
        fact_layer = append_assoc m.fact_layer (n ∷ []) nodes i;
        fact_to_idx =
            index_into Triple-discrete (fact_key u) fact_position (n ∷ nodes) m.fact_to_idx;
      }

  passages_restored :
      (m : Memory) (nodes : List PassageNode)
      → foldl (restore_passage u) m (map passage_to_item nodes) ≡ record m {
        passage_layer = m.passage_layer ++ nodes;
        chunk_id_to_idx =
            index_into Text-discrete chunk_key passage_position nodes m.chunk_id_to_idx;
      }
  unfolding passage_to_item passage_of_item index_into
  passages_restored m [] = λ i. record m { passage_layer = sym (append-nil m.passage_layer) i }
  passages_restored m (n ∷ nodes) =
      passages_restored (restore_passage u m (passage_to_item n)) nodes ∙ λ i. record m {
        passage_layer = append_assoc m.passage_layer (n ∷ []) nodes i;
        chunk_id_to_idx =
            index_into Text-discrete chunk_key passage_position (n ∷ nodes) m.chunk_id_to_idx;
      }

  -- A memory with its dictionaries made again.
  abbrev reindexed : Memory → Memory
  reindexed m = record m {
    schema_to_idx = index_into Triple-discrete (schema_key u) schema_position m.schema_layer [];
    fact_to_idx = index_into Triple-discrete (fact_key u) fact_position m.fact_layer [];
    chunk_id_to_idx = index_into Text-discrete chunk_key passage_position m.passage_layer [];
  }

  from_dict-reindexed : (m : Memory) → from_dict u (to_dict m) ≡ reindexed m
  unfolding from_dict to_dict
  from_dict-reindexed m =
      let facts = map fact_to_item m.fact_layer in
      let passages = map passage_to_item m.passage_layer in
      let m₁ = record empty_memory {
        schema_layer = m.schema_layer;
        schema_to_idx = index_into Triple-discrete (schema_key u) schema_position m.schema_layer [];
      } in
      let m₂ = record m₁ {
        fact_layer = m.fact_layer;
        fact_to_idx = index_into Triple-discrete (fact_key u) fact_position m.fact_layer [];
      } in
      ap (λ r. foldl (restore_passage u) (foldl (restore_fact u) r facts) passages)
        (schemas_restored empty_memory m.schema_layer)
      ∙ ap (λ r. foldl (restore_passage u) r passages) (facts_restored m₁ m.fact_layer)
      ∙ passages_restored m₂ m.passage_layer

  reindexed-IsSound : (m : Memory) → IsSound u m → IsSound u (reindexed m)
  reindexed-IsSound m sound = record {
    schemas_keyed =
        index_into-IsIndex Triple-discrete (schema_key u) schema_position m.schema_to_idx
          m.schema_layer sound.schemas_keyed sound.schemas_placed;
    facts_keyed =
        index_into-IsIndex Triple-discrete (fact_key u) fact_position m.fact_to_idx m.fact_layer
          sound.facts_keyed sound.facts_placed;
    passages_keyed =
        index_into-IsIndex Text-discrete chunk_key passage_position m.chunk_id_to_idx
          m.passage_layer sound.passages_keyed sound.passages_placed;
    schemas_placed = sound.schemas_placed;
    facts_placed = sound.facts_placed;
    passages_placed = sound.passages_placed;
    joined = sound.joined;
  }

  -- Exported and restored, a sound memory has its three layers again, and is sound.
  pub from_dict-to_dict :
      (m : Memory)
      → IsSound u m
      → let m' = from_dict u (to_dict m) in
        (m'.schema_layer ≡ m.schema_layer)
        × (m'.fact_layer ≡ m.fact_layer)
        × (m'.passage_layer ≡ m.passage_layer)
        × IsSound u m'
  from_dict-to_dict m sound =
      let same = from_dict-reindexed m in
      (
        ap (λ r. r.schema_layer) same,
        ap (λ r. r.fact_layer) same,
        ap (λ r. r.passage_layer) same,
        subst (IsSound u) (sym same) (reindexed-IsSound m sound),
      )
