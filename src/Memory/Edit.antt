-- ===== src/Memory/Edit.antt =====
-- `_rebuild_fact_indices`, `remove_fact`, `replace_fact` and `add_fact_with_passages`.
use exeio_memgraphrag.Base.{
  ℕ, suc, ℤ, pos, negsuc, List, [], ◌∷◌, Bool, true, false, if◌then◌else◌, ◌==◌, length, get_elem?,
  modify, delete, map, none, some, Option, ite, add_index, drop_index, Result, ok, index, update,
  ◌>>=◌, ℕ_discrete,
}
use exeio_memgraphrag.Base.Dict.{get, put, pop}
use exeio_memgraphrag.Base.Index.{enumerate_into, index_into}
use exeio_memgraphrag.Text.Canonical.{Unicode, Triple, canonical_triple}
use exeio_memgraphrag.Memory.Nodes.{SchemaNode, FactNode, PassageNode, Memory, Triple-discrete}
use exeio_memgraphrag.Memory.Create.{get_or_create_fact}
use exeio_memgraphrag.Memory.Read.{get_schema_by_idx}
use exeio_memgraphrag.Memory.Link.{
  add_schema_fact, drop_schema_fact, count_schema, add_fact_passage, add_passage_fact,
  link_fact_to_schema,
}

-- `fact.idx = new_idx`, counted from `i`
unfoldable pub renumber : ℕ → List FactNode → List FactNode
renumber i [] = []
renumber i (fact ∷ facts) = record fact { idx = i } ∷ renumber (suc i) facts

-- `[old_to_new[i] for i in indices if i in old_to_new]`
unfoldable pub remap : List (ℕ × ℕ) → List ℕ → List ℕ
remap old_to_new [] = []
remap old_to_new (i ∷ indices) =
    let rest = remap old_to_new indices in
    elim (get ℕ_discrete i old_to_new) [ some new ↦ new ∷ rest | none ↦ rest ]

abbrev pub remap_schema : List (ℕ × ℕ) → SchemaNode → SchemaNode
remap_schema old_to_new schema =
    count_schema (record schema { fact_indices = remap old_to_new schema.fact_indices })

abbrev pub remap_passage : List (ℕ × ℕ) → PassageNode → PassageNode
remap_passage old_to_new passage = record passage {
  fact_indices = remap old_to_new passage.fact_indices;
}

abbrev pub drop_passage_fact : ℕ → PassageNode → PassageNode
drop_passage_fact fact_idx passage = record passage {
  fact_indices = drop_index fact_idx passage.fact_indices;
}

-- `fact.frequency = len(fact.passage_indices)`
abbrev pub count_fact : FactNode → FactNode
count_fact fact = record fact { frequency = length fact.passage_indices }

-- The schema of a fact that goes, if its position is one of a schema.
unfoldable pub detach_schema : ℕ → ℤ → List SchemaNode → List SchemaNode
detach_schema fact_idx (negsuc _) schemas = schemas
detach_schema fact_idx (pos s) schemas =
    modify s (λ schema. count_schema (drop_schema_fact fact_idx schema)) schemas

-- A write to each of the passages; a position out of range is passed over.
unfoldable pub modify_each {ℓ} : {A : Type ℓ} → (A → A) → List ℕ → List A → List A
modify_each f [] xs = xs
modify_each f (i ∷ indices) xs = modify_each f indices (modify i f xs)

-- What is left when `fact`, at `fact_idx`, goes.
unfoldable pub without_fact : Memory → ℕ → FactNode → Memory
unfolding detach_schema modify_each drop_index
without_fact m fact_idx fact = record m {
  schema_layer = detach_schema fact.idx fact.schema_idx m.schema_layer;
  fact_layer = delete fact_idx m.fact_layer;
  passage_layer = modify_each (drop_passage_fact fact.idx) fact.passage_indices m.passage_layer;
}

module _ (u : Unicode) where
  unfoldable pub rebuild_fact_indices : Memory → Memory
  unfolding renumber remap enumerate_into index_into
  rebuild_fact_indices m =
      let old_to_new = enumerate_into ℕ_discrete (λ (f : FactNode). f.idx) 0 m.fact_layer [] in
      let facts = renumber 0 m.fact_layer in
      record m {
        schema_layer = map (remap_schema old_to_new) m.schema_layer;
        fact_layer = map count_fact facts;
        passage_layer = map (remap_passage old_to_new) m.passage_layer;
        fact_to_idx =
            index_into Triple-discrete (λ (f : FactNode). canonical_triple u f.content)
              (λ (f : FactNode). f.idx) facts [];
      }

  unfoldable pub remove_fact : Memory → ℕ → Memory × Bool
  unfolding rebuild_fact_indices without_fact
  remove_fact m fact_idx = elim (get_elem? m.fact_layer fact_idx) [
    | none ↦ (m, false)
    | some fact ↦ (rebuild_fact_indices (without_fact m fact_idx fact), true)
  ]

  -- the loop over the passages of the fact that is merged into `target`
  unfoldable pub merge_passages : Memory → List ℕ → ℕ → Memory
  unfolding add_index
  merge_passages m [] target = m
  merge_passages m (p ∷ passages) target =
      merge_passages
        (record m {
          fact_layer = modify target (add_fact_passage p) m.fact_layer;
          passage_layer = modify p (add_passage_fact target) m.passage_layer;
        })
        passages target

  -- the schema of a merged fact goes to the fact that survives, if that has none
  unfoldable pub inherit_schema : Memory → ℕ → ℤ → ℤ → Result Memory
  unfolding link_fact_to_schema get_schema_by_idx
  inherit_schema m surviving (negsuc _) held = ok m
  inherit_schema m surviving (pos old) (pos _) = ok m
  inherit_schema m surviving (pos old) (negsuc _) = elim (get_schema_by_idx m (pos old)) [
    | none ↦ ok m
    | some schema ↦ do (m', _) ← link_fact_to_schema u m surviving schema.content; ok m'
  ]

  unfoldable pub merge_fact : Memory → ℕ → FactNode → ℕ → Triple → Result (Memory × ℤ)
  unfolding merge_passages remove_fact inherit_schema
  merge_fact m fact_idx fact existing new_triple = do
    target ← index m.fact_layer existing
    let m' = (remove_fact (merge_passages m fact.passage_indices existing) fact_idx).0
    elim (get Triple-discrete (canonical_triple u new_triple) m'.fact_to_idx) [
      | none ↦ ok (m', negsuc 0)
      | some surviving ↦ do
        survivor ← index m'.fact_layer surviving
        m'' ← inherit_schema m' surviving fact.schema_idx survivor.schema_idx
        ok (m'', pos surviving)
    ]

  unfoldable pub rename_fact : Memory → ℕ → FactNode → Triple → Memory
  rename_fact m fact_idx fact new_triple = record m {
    fact_layer = modify fact_idx (λ f. record f { content = new_triple }) m.fact_layer;
    fact_to_idx =
        put Triple-discrete (canonical_triple u new_triple) fact_idx
          (pop Triple-discrete (canonical_triple u fact.content) m.fact_to_idx);
  }

  -- Another fact that has the key already.
  unfoldable pub other_fact : Memory → ℕ → Triple → Option ℕ
  other_fact m fact_idx new_triple =
      elim (get Triple-discrete (canonical_triple u new_triple) m.fact_to_idx) [
        | none ↦ none
        | some existing ↦ if existing == fact_idx then none else some existing
      ]

  unfoldable pub replace_fact : Memory → ℕ → Triple → Result (Memory × ℤ)
  unfolding merge_fact rename_fact other_fact
  replace_fact m fact_idx new_triple = do
    fact ← index m.fact_layer fact_idx
    ite (Triple-discrete fact.content new_triple) (ok (m, pos fact_idx))
        (elim (other_fact m fact_idx new_triple) [
          | some existing ↦ merge_fact m fact_idx fact existing new_triple
          | none ↦ ok (rename_fact m fact_idx fact new_triple, pos fact_idx)
        ])

  -- a fact that was there with no schema takes the one that is given
  unfoldable pub adopt_schema : Memory → ℕ → ℤ → ℤ → Result Memory
  adopt_schema m fact_idx (pos s) (negsuc _) = do
    schemas ← update m.schema_layer s (λ n. count_schema (add_schema_fact fact_idx n))
    ok (record m {
      schema_layer = schemas;
      fact_layer = modify fact_idx (λ f. record f { schema_idx = pos s }) m.fact_layer;
    })
  adopt_schema m fact_idx given held = ok m

  unfoldable pub add_fact_with_passages : Memory → Triple → List ℕ → ℤ → Result (Memory × ℕ)
  unfolding get_or_create_fact adopt_schema merge_passages
  add_fact_with_passages m triple passage_indices schema_idx = do
    let (m₁, fact_idx) = get_or_create_fact u m triple schema_idx
    fact ← index m₁.fact_layer fact_idx
    m₂ ← adopt_schema m₁ fact_idx schema_idx fact.schema_idx
    let m₃ = merge_passages m₂ passage_indices fact_idx
    ok (record m₃ { fact_layer = modify fact_idx count_fact m₃.fact_layer }, fact_idx)
