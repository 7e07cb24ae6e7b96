-- ===== src/Memory/Linked.antt =====
-- `link_fact_to_schema` moves a fact from its schema to the one of the given ontology.
use exeio_memgraphrag.Base.{
  ℕ, ◌<◌, ◌≤◌, ◌⊎◌, ℤ, pos, negsuc, List, not, ◌&&◌, ◌≡◌, refl, sym, ap, ◌∙◌, some, get_elem?,
  length, modify, ok, raise, index_error, arith, ltb, ◌==◌, if◌then◌else◌, Bool-cases, inl, inr,
  get_elem?-modify, get_elem?-ne-none, get_elem?_of_lt, get_elem?-lt, get_elem?_of_le,
  length-modify, AllNodes, AllNodes-modify, add_index-IsDistinct, drop_index-IsDistinct,
}
use exeio_memgraphrag.Base.Index.{
  IsIndex-same_keys, IsPlaced-modify, key_at, key_at-lt, key_at-modify,
}
use exeio_memgraphrag.Text.Canonical.{Unicode, Triple, canonical_triple}
use exeio_memgraphrag.Memory.Nodes.{SchemaNode, FactNode, Memory, Triple-discrete}
use exeio_memgraphrag.Memory.Create.{get_or_create_schema}
use exeio_memgraphrag.Memory.Link.{
  add_schema_fact, drop_schema_fact, count_schema, leave_schema, link_known_fact,
  link_fact_to_schema,
}
use exeio_memgraphrag.Memory.Relation.{
  lists, lists_of_le, lists-modify_add, lists-modify_drop, lists-modify_other,
}
use exeio_memgraphrag.Memory.Invariant.{
  IsSound, IsClassified, IsTidy, schema_key, fact_key, schema_position, fact_position,
  facts_of_schema, passages_of_fact, belongs, is_position,
}
use exeio_memgraphrag.Memory.Created.{
  get_or_create_schema-IsSound, get_or_create_schema-IsClassified, fact_layer-get_or_create_schema,
}

-- A list of facts that is changed and counted again.
pub add_schema_fact-IsTidy :
    (i : ℕ) (n : SchemaNode) → IsTidy n → IsTidy (count_schema (add_schema_fact i n))
add_schema_fact-IsTidy i n tidy = record {
  distinct = add_index-IsDistinct i n.fact_indices tidy.distinct;
  counted = refl;
}

pub drop_schema_fact-IsTidy :
    (i : ℕ) (n : SchemaNode) → IsTidy n → IsTidy (count_schema (drop_schema_fact i n))
drop_schema_fact-IsTidy i n tidy = record {
  distinct = drop_index-IsDistinct i n.fact_indices tidy.distinct;
  counted = refl;
}

abbrev forget : ℕ → SchemaNode → SchemaNode
forget i n = count_schema (drop_schema_fact i n)

module _ (schemas : List SchemaNode) (s i : ℕ) where
  leave_schema-cases :
      (z : ℤ)
      → (leave_schema z s i schemas ≡ schemas)
        ⊎ ((old : ℕ) × (leave_schema z s i schemas ≡ modify old (forget i) schemas))
  unfolding leave_schema
  leave_schema-cases (negsuc n) = inl refl
  leave_schema-cases (pos old) = elim (Bool-cases (not (old == s) && ltb old (length schemas))) [
    | inl leaves ↦ inr (old, rw (leaves, leave_schema))
    | inr stays ↦ inl (rw (stays, leave_schema))
  ]

  leave_schema-AllNodes :
      (z : ℤ) → AllNodes IsTidy schemas → AllNodes IsTidy (leave_schema z s i schemas)
  leave_schema-AllNodes z tidy = elim (leave_schema-cases z) [
    | inl same ↦ rw same tidy
    | inr (old, changed) ↦
        rw changed (AllNodes-modify IsTidy old (forget i) schemas (drop_schema_fact-IsTidy i) tidy)
  ]

  length-leave_schema : (z : ℤ) → length (leave_schema z s i schemas) ≡ length schemas
  length-leave_schema z = elim (leave_schema-cases z) [
    | inl same ↦ ap length same
    | inr (old, changed) ↦ ap length changed ∙ length-modify old (forget i) schemas
  ]

  key_at-leave_schema :
      {K : Type 0} (key : SchemaNode → K) (z : ℤ) (j : ℕ)
      → ((n : SchemaNode) → key (forget i n) ≡ key n)
      → key_at key (leave_schema z s i schemas) j ≡ key_at key schemas j
  key_at-leave_schema key z j keeps = elim (leave_schema-cases z) [
    | inl same ↦ rw same
    | inr (old, changed) ↦ rw changed (key_at-modify key old j (forget i) schemas keeps)
  ]

  lists-leave_schema :
      (z : ℤ) (t j : ℕ)
      → AllNodes IsTidy schemas
      → lists facts_of_schema (leave_schema z s i schemas) t j
        ≡ (not (is_position t z && not (s == t) && i == j) && lists facts_of_schema schemas t j)
  unfolding leave_schema
  lists-leave_schema (negsuc n) t j tidy = refl
  lists-leave_schema (pos old) t j tidy = ground (
    arith,
    lists-modify_drop facts_of_schema schemas old i t j (forget i) (λ n. refl)
        (λ k n at. (tidy k n at).distinct),
    lists_of_le facts_of_schema schemas t j,
  )

belongs-modify_schema :
    (facts : List FactNode) (i s j t : ℕ)
    → i < length facts
    → belongs (modify i (λ f. record f { schema_idx = pos s }) facts) j t
      ≡ (if i == j then s == t else belongs facts j t)
unfolding belongs
belongs-modify_schema facts i s j t fact = ground (
  arith,
  get_elem?-modify i j (λ f. record f { schema_idx = pos s }) facts,
  get_elem?-ne-none i facts,
)

belongs_self :
    (facts : List FactNode) (i t : ℕ) (f : FactNode)
    → get_elem? facts i ≡ some f
    → belongs facts i t ≡ is_position t f.schema_idx
unfolding belongs
belongs_self facts i t f at = rw (at, belongs)

-- The memory after a fact moves to a schema.
abbrev moved : Memory → ℕ → FactNode → ℕ → Memory
moved m i f s = record m {
  schema_layer =
      modify s (λ n. count_schema (add_schema_fact i n))
        (leave_schema f.schema_idx s i m.schema_layer);
  fact_layer = modify i (λ g. record g { schema_idx = pos s }) m.fact_layer;
}

module _ (u : Unicode) (m : Memory) (i s : ℕ) (f : FactNode)
    (at : get_elem? m.fact_layer i ≡ some f) (schema : s < length m.schema_layer) where
  same_key :
      {K : Type 0} (key : SchemaNode → K) (j : ℕ)
      → ((n : SchemaNode) → key (forget i n) ≡ key n)
      → ((n : SchemaNode) → key (count_schema (add_schema_fact i n)) ≡ key n)
      → key_at key (moved m i f s).schema_layer j ≡ key_at key m.schema_layer j
  same_key key j keeps keeps' =
      key_at-modify key s j (λ n. count_schema (add_schema_fact i n))
        (leave_schema f.schema_idx s i m.schema_layer) keeps'
      ∙ key_at-leave_schema m.schema_layer s i key f.schema_idx j keeps

  moved-IsSound : IsSound u m → IsSound u (moved m i f s)
  moved-IsSound sound = record {
    schemas_keyed =
        IsIndex-same_keys Triple-discrete (schema_key u) sound.schemas_keyed
          (λ j. same_key (schema_key u) j (λ n. refl) (λ n. refl));
    facts_keyed = IsIndex-same_keys Triple-discrete (fact_key u) sound.facts_keyed (λ j.
        key_at-modify (fact_key u) i j (λ g. record g { schema_idx = pos s }) m.fact_layer
          (λ x. refl));
    passages_keyed = sound.passages_keyed;
    schemas_placed = λ j k h.
        sound.schemas_placed j k (sym (same_key schema_position j (λ n. refl) (λ n. refl)) ∙ h);
    facts_placed =
        IsPlaced-modify fact_position i (λ g. record g { schema_idx = pos s }) m.fact_layer
          sound.facts_placed (λ x. refl);
    passages_placed = sound.passages_placed;
    joined = λ j p.
        lists-modify_other passages_of_fact m.fact_layer i j p
          (λ g. record g { schema_idx = pos s }) (λ x. refl)
        ∙ sound.joined j p;
  }

  moved-IsClassified : IsClassified m → IsClassified (moved m i f s)
  moved-IsClassified cl = record {
    listed = λ t j.
        let schemas = leave_schema f.schema_idx s i m.schema_layer in
        ground (
          arith,
          lists-modify_add facts_of_schema schemas s i t j (λ n. count_schema (add_schema_fact i n))
              (λ n. refl),
          length-leave_schema m.schema_layer s i f.schema_idx,
          lists-leave_schema m.schema_layer s i f.schema_idx t j cl.tidy,
          belongs-modify_schema m.fact_layer i s j t (get_elem?-lt i m.fact_layer at),
          belongs_self m.fact_layer i t f at,
          cl.listed t j,
        );
    tidy =
        AllNodes-modify IsTidy s (λ n. count_schema (add_schema_fact i n))
          (leave_schema f.schema_idx s i m.schema_layer) (add_schema_fact-IsTidy i)
          (leave_schema-AllNodes m.schema_layer s i f.schema_idx cl.tidy);
  }

  link_known_fact_ok : link_known_fact u m i f s ≡ ok (moved m i f s, s)
  unfolding link_known_fact
  link_known_fact_ok =
      let schemas = leave_schema f.schema_idx s i m.schema_layer in
      ground
        (arith, get_elem?-ne-none s schemas, length-leave_schema m.schema_layer s i f.schema_idx)

-- A fact of a memory that is sound and classified is linked to the schema of the ontology's key with
-- no index out of range, and the memory stays sound and classified; the fact belongs to that schema
-- and to no other.
pub link_fact_to_schema-IsClassified :
    (u : Unicode) (m : Memory) (i : ℕ) (ontology : Triple)
    → i < length m.fact_layer
    → IsSound u m
    → IsClassified m
    → (m' : Memory) × (s : ℕ) × (link_fact_to_schema u m i ontology ≡ ok (m', s))
      × IsSound u m'
      × IsClassified m'
      × (key_at (schema_key u) m'.schema_layer s ≡ some (canonical_triple u ontology))
      × ((t : ℕ) → belongs m'.fact_layer i t ≡ s == t)
unfolding link_fact_to_schema
link_fact_to_schema-IsClassified u m i ontology fact sound cl =
    let (f, at) = get_elem?_of_lt i m.fact_layer fact in
    let (m₁, s) = get_or_create_schema u m ontology in
    let (sound₁, found) = get_or_create_schema-IsSound u sound ontology in
    let cl₁ = get_or_create_schema-IsClassified u m cl ontology in
    let at₁ : get_elem? m₁.fact_layer i ≡ some f = rw fact_layer-get_or_create_schema at in
    let schema = key_at-lt (schema_key u) m₁.schema_layer s _ found in
    (
      moved m₁ i f s,
      s,
      rw (at, link_fact_to_schema) (link_known_fact_ok u m₁ i s f at₁ schema),
      moved-IsSound u m₁ i s f at₁ schema sound₁,
      moved-IsClassified u m₁ i s f at₁ schema cl₁,
      same_key u m₁ i s f at₁ schema (schema_key u) s (λ n. refl) (λ n. refl) ∙ found,
      λ t.
          ground
            (arith, belongs-modify_schema m₁.fact_layer i s i t (get_elem?-lt i m₁.fact_layer at₁)),
    )

-- The test of the range comes first: nothing is created for a fact that is not there.
link_fact_to_schema_out_of_range :
    (u : Unicode) (m : Memory) (i : ℕ) (ontology : Triple)
    → length m.fact_layer ≤ i
    → link_fact_to_schema u m i ontology ≡ raise index_error
unfolding link_fact_to_schema
link_fact_to_schema_out_of_range u m i ontology out =
    rw (get_elem?_of_le i m.fact_layer out, link_fact_to_schema)
