-- ===== src/Memory/Link.antt =====
-- `link_fact_to_schema`, and the two steps that join a fact to a passage.
use exeio_memgraphrag.Base.{
  ℕ, ℤ, pos, negsuc, List, if◌then◌else◌, ltb, ◌==◌, not, ◌&&◌, length, modify, add_index,
  drop_index, Result, ok, raise, index_error, update, ◌>>=◌, none, some, get_elem?,
}
use exeio_memgraphrag.Text.Canonical.{Unicode, Triple}
use exeio_memgraphrag.Memory.Nodes.{SchemaNode, FactNode, PassageNode, Memory}
use exeio_memgraphrag.Memory.Create.{get_or_create_schema}

-- `if fact_idx not in schema.fact_indices: append`, and the count of them
abbrev pub add_schema_fact : ℕ → SchemaNode → SchemaNode
add_schema_fact fact_idx schema = record schema {
  fact_indices = add_index fact_idx schema.fact_indices;
}

abbrev pub drop_schema_fact : ℕ → SchemaNode → SchemaNode
drop_schema_fact fact_idx schema = record schema {
  fact_indices = drop_index fact_idx schema.fact_indices;
}

abbrev pub count_schema : SchemaNode → SchemaNode
count_schema schema = record schema { frequency = length schema.fact_indices }

abbrev pub add_fact_passage : ℕ → FactNode → FactNode
add_fact_passage passage_idx fact = record fact {
  passage_indices = add_index passage_idx fact.passage_indices;
}

abbrev pub add_passage_fact : ℕ → PassageNode → PassageNode
add_passage_fact fact_idx passage = record passage {
  fact_indices = add_index fact_idx passage.fact_indices;
}

-- The schema that a fact leaves for another one.
unfoldable pub leave_schema : ℤ → ℕ → ℕ → List SchemaNode → List SchemaNode
leave_schema (negsuc _) schema_idx fact_idx schemas = schemas
leave_schema (pos old) schema_idx fact_idx schemas =
    if not (old == schema_idx) && ltb old (length schemas)
    then modify old (λ s. count_schema (drop_schema_fact fact_idx s)) schemas
    else schemas

module _ (u : Unicode) where
  -- The fact is known to be there; only the write to its new schema could still be out of range.
  unfoldable pub link_known_fact : Memory → ℕ → FactNode → ℕ → Result (Memory × ℕ)
  unfolding leave_schema add_index drop_index
  link_known_fact m fact_idx fact schema_idx = do
    schemas ←
        update (leave_schema fact.schema_idx schema_idx fact_idx m.schema_layer) schema_idx
          (λ s. count_schema (add_schema_fact fact_idx s))
    ok (
      record m {
        schema_layer = schemas;
        fact_layer = modify fact_idx (λ f. record f { schema_idx = pos schema_idx }) m.fact_layer;
      },
      schema_idx,
    )

  unfoldable pub link_fact_to_schema : Memory → ℕ → Triple → Result (Memory × ℕ)
  unfolding link_known_fact get_or_create_schema
  link_fact_to_schema m fact_idx ontology = elim (get_elem? m.fact_layer fact_idx) [
    | none ↦ raise index_error
    | some fact ↦
        let (m', schema_idx) = get_or_create_schema u m ontology in
        link_known_fact m' fact_idx fact schema_idx
  ]
