-- ===== src/Memory/Create.antt =====
-- `_get_or_create_schema`, `_get_or_create_fact` and `_get_or_create_passage`.
use exeio_memgraphrag.Base.{ℕ, ℤ, [], ◌∷◌, ◌++◌, none, some, length}
use exeio_memgraphrag.Base.Dict.{get, put}
use exeio_memgraphrag.Text.Defs.{Text, Text-discrete, codes}
use exeio_memgraphrag.Text.Canonical.{Unicode, Triple, canonical_triple}
use exeio_memgraphrag.Memory.Nodes.{SchemaNode, FactNode, PassageNode, Memory, Triple-discrete}

-- A node as its constructor makes it, with the defaults of its other fields.
abbrev pub new_schema : ℕ → Triple → SchemaNode
new_schema idx ontology = record {
  idx = idx;
  content = ontology;
  frequency = 0;
  embedding = none;
  fact_indices = [];
}

abbrev pub new_fact : ℕ → Triple → ℤ → FactNode
new_fact idx triple schema_idx = record {
  idx = idx;
  content = triple;
  frequency = 0;
  embedding = none;
  schema_idx = schema_idx;
  passage_indices = [];
}

abbrev pub new_passage : ℕ → Text → Text → PassageNode
new_passage idx chunk_id passage_text = record {
  idx = idx;
  chunk_id = chunk_id;
  content = passage_text;
  embedding = none;
  fact_indices = [];
  modality = codes "text";
}

module _ (u : Unicode) where
  unfoldable pub get_or_create_schema : Memory → Triple → Memory × ℕ
  get_or_create_schema m ontology =
      let key = canonical_triple u ontology in
      let idx = length m.schema_layer in
      elim (get Triple-discrete key m.schema_to_idx) [
        | some known ↦ (m, known)
        | none ↦ (
          record m {
            schema_layer = m.schema_layer ++ new_schema idx ontology ∷ [];
            schema_to_idx = put Triple-discrete key idx m.schema_to_idx;
          },
          idx,
        )
      ]

  unfoldable pub get_or_create_fact : Memory → Triple → ℤ → Memory × ℕ
  get_or_create_fact m triple schema_idx =
      let key = canonical_triple u triple in
      let idx = length m.fact_layer in
      elim (get Triple-discrete key m.fact_to_idx) [
        | some known ↦ (m, known)
        | none ↦ (
          record m {
            fact_layer = m.fact_layer ++ new_fact idx triple schema_idx ∷ [];
            fact_to_idx = put Triple-discrete key idx m.fact_to_idx;
          },
          idx,
        )
      ]

unfoldable pub get_or_create_passage : Memory → Text → Text → Memory × ℕ
get_or_create_passage m chunk_id passage_text =
    let idx = length m.passage_layer in
    elim (get Text-discrete chunk_id m.chunk_id_to_idx) [
      | some known ↦ (m, known)
      | none ↦ (
        record m {
          passage_layer = m.passage_layer ++ new_passage idx chunk_id passage_text ∷ [];
          chunk_id_to_idx = put Text-discrete chunk_id idx m.chunk_id_to_idx;
        },
        idx,
      )
    ]
