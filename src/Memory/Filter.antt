-- ===== src/Memory/Filter.antt =====
-- `filter_schemas_by_frequency` and `recompute_schema_frequencies`.
use exeio_memgraphrag.Base.{
  ℕ, ℤ, pos, negsuc, List, [], ◌∷◌, ◌++◌, ◌+◌, Bool, true, false, ◌||◌, if◌then◌else◌, leb, ◌==◌,
  length, modify, map, foldl, none, some, ℕ_discrete,
}
use exeio_memgraphrag.Base.Dict.{get, put}
use exeio_memgraphrag.Base.Index.{index_into}
use exeio_memgraphrag.Text.Canonical.{Unicode, canonical_triple}
use exeio_memgraphrag.Memory.Nodes.{SchemaNode, FactNode, Memory, Triple-discrete}
use exeio_memgraphrag.Memory.Link.{count_schema}

-- the dictionary that the method returns
pub record FilterStats : Type 0 where
  pub kept : ℕ
  pub dropped : ℕ
  pub min_frequency : ℤ

unfoldable pub recompute_schema_frequencies : Memory → Memory
recompute_schema_frequencies m = record m { schema_layer = map count_schema m.schema_layer }

-- The variables of the loop over the schemas.
pub record Selection : Type 0 where
  pub kept_nodes : List SchemaNode
  pub old_to_new : List (ℕ × ℕ)
  pub dropped : ℕ

abbrev pub no_selection : Selection
no_selection = record { kept_nodes = []; old_to_new = []; dropped = 0 }

unfoldable pub select_schema : ℕ → Selection → SchemaNode → Selection
select_schema min_frequency s schema =
    let new_idx = length s.kept_nodes in
    if leb min_frequency (length schema.fact_indices)
    then record {
      kept_nodes = s.kept_nodes ++ (record (count_schema schema) { idx = new_idx }) ∷ [];
      old_to_new = put ℕ_discrete schema.idx new_idx s.old_to_new;
      dropped = s.dropped;
    }
    else record s { dropped = s.dropped + 1 }

-- the fact's schema under its new position, or -1
unfoldable pub move_schema_idx : List (ℕ × ℕ) → ℤ → ℤ
move_schema_idx old_to_new (negsuc n) = negsuc n
move_schema_idx old_to_new (pos old) = elim (get ℕ_discrete old old_to_new) [
  | some new ↦ pos new
  | none ↦ negsuc 0
]

abbrev pub move_fact : List (ℕ × ℕ) → FactNode → FactNode
move_fact old_to_new fact = record fact { schema_idx = move_schema_idx old_to_new fact.schema_idx }

-- `kept_nodes[fact.schema_idx].fact_indices.append(fact.idx)`. The position is one that
-- `old_to_new` gave, so it is in range.
unfoldable pub append_fact : ℕ → ℤ → List SchemaNode → List SchemaNode
append_fact fact_idx (negsuc _) schemas = schemas
append_fact fact_idx (pos s) schemas =
    modify s (λ schema. record schema { fact_indices = schema.fact_indices ++ fact_idx ∷ [] })
      schemas

unfoldable pub collect_facts : List FactNode → List SchemaNode → List SchemaNode
unfolding append_fact
collect_facts [] schemas = schemas
collect_facts (fact ∷ facts) schemas =
    collect_facts facts (append_fact fact.idx fact.schema_idx schemas)

abbrev pub clear_facts : SchemaNode → SchemaNode
clear_facts schema = record schema { fact_indices = [] }

abbrev pub is_empty {ℓ} : {A : Type ℓ} → List A → Bool
is_empty [] = true
is_empty (x ∷ xs) = false

module _ (u : Unicode) where
  -- The part of the method behind its early return.
  unfoldable pub drop_rare_schemas : Memory → ℕ → Memory × FilterStats
  unfolding select_schema move_schema_idx collect_facts index_into
  drop_rare_schemas m min_frequency =
      let s = foldl (select_schema min_frequency) no_selection m.schema_layer in
      let facts = map (move_fact s.old_to_new) m.fact_layer in
      let schemas = map count_schema (collect_facts facts (map clear_facts s.kept_nodes)) in
      (
        record m {
          schema_layer = schemas;
          fact_layer = facts;
          schema_to_idx =
              index_into Triple-discrete (λ (n : SchemaNode). canonical_triple u n.content)
                (λ (n : SchemaNode). n.idx) schemas [];
        },
        record { kept = length schemas; dropped = s.dropped; min_frequency = pos min_frequency },
      )

  unfoldable pub filter_schemas_by_frequency : Memory → ℤ → Memory × FilterStats
  unfolding drop_rare_schemas
  filter_schemas_by_frequency m (negsuc n) =
      (m, record { kept = length m.schema_layer; dropped = 0; min_frequency = negsuc n })
  filter_schemas_by_frequency m (pos min_frequency) =
      if min_frequency == 0 || is_empty m.schema_layer
      then (
        m,
        record { kept = length m.schema_layer; dropped = 0; min_frequency = pos min_frequency },
      )
      else drop_rare_schemas m min_frequency
