-- ===== src/Memory/Added.antt =====
-- What `add_fact_with_passages` of memgraphrag/memory.py does with a triple that is new.
use exeio_memgraphrag.Base.{
  ℕ, ℤ, pos, List, [], ◌∷◌, ◌++◌, ◌≡◌, true, none, some, refl, ap, ◌∙◌, length, modify, arith, ok,
  Result, ◌>>=◌, get_elem?, get_elem?-snoc, index,
}
use exeio_memgraphrag.Base.Dict.{get, put}
use exeio_memgraphrag.Text.Canonical.{Unicode, Triple, canonical_triple}
use exeio_memgraphrag.Memory.Nodes.{FactNode, Memory, Triple-discrete}
use exeio_memgraphrag.Memory.Create.{get_or_create_fact, new_fact}
use exeio_memgraphrag.Memory.Link.{add_fact_passage}
use exeio_memgraphrag.Memory.Edit.{count_fact, merge_passages, adopt_schema, add_fact_with_passages}
use exeio_memgraphrag.Memory.Invariant.{belongs}
use exeio_memgraphrag.Memory.Joined.{with_link, belongs-modify}

module _ (u : Unicode) where
  schema_layer-merge_passages :
      (m : Memory) (passages : List ℕ) (target : ℕ)
      → (merge_passages u m passages target).schema_layer ≡ m.schema_layer
  unfolding merge_passages
  schema_layer-merge_passages m [] target = refl
  schema_layer-merge_passages m (p ∷ passages) target =
      schema_layer-merge_passages (with_link m target p) passages target

  belongs-merge_passages :
      (m : Memory) (passages : List ℕ) (target i s : ℕ)
      → belongs (merge_passages u m passages target).fact_layer i s ≡ belongs m.fact_layer i s
  unfolding merge_passages
  belongs-merge_passages m [] target i s = refl
  belongs-merge_passages m (p ∷ passages) target i s =
      belongs-merge_passages (with_link m target p) passages target i s
      ∙ belongs-modify m.fact_layer target i s (add_fact_passage p) (λ f. refl)

  -- The memory with a new fact at its end.
  abbrev with_new_fact : Memory → Triple → ℤ → Memory
  with_new_fact m t z = record m {
    fact_layer = m.fact_layer ++ new_fact (length m.fact_layer) t z ∷ [];
    fact_to_idx = put Triple-discrete (canonical_triple u t) (length m.fact_layer) m.fact_to_idx;
  }

  get_or_create_fact-new_fact :
      (m : Memory) (t : Triple) (z : ℤ)
      → get Triple-discrete (canonical_triple u t) m.fact_to_idx ≡ none
      → get_or_create_fact u m t z ≡ (with_new_fact m t z, length m.fact_layer)
  unfolding get_or_create_fact
  get_or_create_fact-new_fact m t z absent = rw (absent, get_or_create_fact)

  -- The part of `add_fact_with_passages` behind `_get_or_create_fact`.
  abbrev attach : List ℕ → ℤ → Memory × ℕ → Result (Memory × ℕ)
  attach passages z (m, i) = do
    fact ← index m.fact_layer i
    m₂ ← adopt_schema u m i z fact.schema_idx
    let m₃ = merge_passages u m₂ passages i
    ok (record m₃ { fact_layer = modify i count_fact m₃.fact_layer }, i)

  attach_ok :
      (m : Memory) (passages : List ℕ) (s i : ℕ) (f : FactNode)
      → get_elem? m.fact_layer i ≡ some f
      → f.schema_idx ≡ pos s
      → let m₃ = merge_passages u m passages i in
        attach passages (pos s) (m, i)
        ≡ ok (record m₃ { fact_layer = modify i count_fact m₃.fact_layer }, i)
  unfolding adopt_schema
  attach_ok m passages s i f at held = ground (arith, at, held)

  add_fact_with_passages-attach :
      (m : Memory) (t : Triple) (passages : List ℕ) (z : ℤ)
      → add_fact_with_passages u m t passages z ≡ attach passages z (get_or_create_fact u m t z)
  unfolding add_fact_with_passages
  add_fact_with_passages-attach m t passages z = refl

  -- A triple that is new, with a schema: nothing is raised, the fact belongs to that schema, and no
  -- schema is changed, so none comes to list it.
  pub add_fact_with_passages-new_fact :
      (m : Memory) (t : Triple) (passages : List ℕ) (s : ℕ)
      → get Triple-discrete (canonical_triple u t) m.fact_to_idx ≡ none
      → (m' : Memory) × (add_fact_with_passages u m t passages (pos s)
          ≡ ok (m', length m.fact_layer))
        × (belongs m'.fact_layer (length m.fact_layer) s ≡ true)
        × (m'.schema_layer ≡ m.schema_layer)
  add_fact_with_passages-new_fact m t passages s absent =
      let m₁ = with_new_fact m t (pos s) in
      let i = length m.fact_layer in
      let node = new_fact i t (pos s) in
      let at : get_elem? m₁.fact_layer i ≡ some node =
        ground (arith, get_elem?-snoc i m.fact_layer node) in
      let m₃ = merge_passages u m₁ passages i in
      (
        record m₃ { fact_layer = modify i count_fact m₃.fact_layer },
        add_fact_with_passages-attach m t passages (pos s)
            ∙ ap (attach passages (pos s)) (get_or_create_fact-new_fact m t (pos s) absent)
            ∙ attach_ok m₁ passages s i node at refl,
        belongs-modify m₃.fact_layer i i s count_fact (λ f. refl)
            ∙ belongs-merge_passages m₁ passages i i s
            ∙ unfold belongs in ground (arith, at),
        schema_layer-merge_passages m₁ passages i,
      )
