-- ===== src/Memory/Filed.antt =====
-- The builder for payloads with ontologies: it raises nothing and keeps the memory sound, and each
-- fact is listed by the schema that it belongs to.
use exeio_memgraphrag.Base.{
  ℕ, ◌<◌, pos, List, [], ◌∷◌, true, ◌≡◌, ◌⊎◌, inl, inr, refl, sym, ◌∙◌, some, Option, Result, ok,
  ◌>>=◌, arith, get_elem?-snoc, get_elem?-ne-none, length, map, modify, AllNodes, AllNodes-map,
}
use exeio_memgraphrag.Base.Index.{
  IsIndex-same_keys, IsPlaced-modify, key_at, key_at-lt, key_at-modify, key_at-map,
}
use exeio_memgraphrag.Text.Defs.{Text}
use exeio_memgraphrag.Text.Canonical.{Unicode, Triple}
use exeio_memgraphrag.Memory.Nodes.{SchemaNode, Memory, Triple-discrete}
use exeio_memgraphrag.Memory.Create.{
  get_or_create_schema, get_or_create_fact, get_or_create_passage, new_fact, new_schema,
}
use exeio_memgraphrag.Memory.Link.{
  add_schema_fact, count_schema, add_fact_passage, add_passage_fact,
}
use exeio_memgraphrag.Memory.Build.{
  OntologyDoc, file_fact, count_facts, add_ontology_entry, add_ontology_entries, add_ontology_map,
  add_ontology_doc, add_ontology_docs, build_from_openie_results,
}
use exeio_memgraphrag.Memory.Edit.{count_fact}
use exeio_memgraphrag.Memory.Relation.{lists, lists-modify_add, lists-map_other, lists-snoc}
use exeio_memgraphrag.Memory.Invariant.{
  IsSound, schema_key, fact_key, chunk_key, schema_position, facts_of_schema, belongs,
}
use exeio_memgraphrag.Memory.Created.{
  get_or_create_schema-IsSound, get_or_create_fact-IsSound, get_or_create_passage-IsSound,
  passage_layer-get_or_create_fact, schema_layer-get_or_create_fact,
  passage_layer-get_or_create_schema, schema_layer-get_or_create_passage,
  fact_layer-get_or_create_passage, key_at-get_or_create_passage,
}
use exeio_memgraphrag.Memory.Joined.{
  with_link, join_fact_passage_ok, with_link-IsSound, belongs-modify,
}
use exeio_memgraphrag.Memory.Built.{
  AreCounted, count_facts-IsSound, count_facts-AreCounted, belongs-map,
}

-- A fact is listed by the schema that it belongs to; other schemas may list it too.
abbrev pub IsFiled : Memory → Type 0
IsFiled m =
    (i s : ℕ) → belongs m.fact_layer i s ≡ true → lists facts_of_schema m.schema_layer s i ≡ true

-- The memory after a schema takes a fact into its list.
abbrev with_schema_fact : Memory → ℕ → ℕ → Memory
with_schema_fact m s i = record m { schema_layer = modify s (add_schema_fact i) m.schema_layer }

with_schema_fact-IsSound :
    (u : Unicode) (m : Memory) (s i : ℕ) → IsSound u m → IsSound u (with_schema_fact m s i)
with_schema_fact-IsSound u m s i sound = record {
  schemas_keyed =
      IsIndex-same_keys Triple-discrete (schema_key u) sound.schemas_keyed
        (λ j. key_at-modify (schema_key u) s j (add_schema_fact i) m.schema_layer (λ x. refl));
  facts_keyed = sound.facts_keyed;
  passages_keyed = sound.passages_keyed;
  schemas_placed =
      IsPlaced-modify schema_position s (add_schema_fact i) m.schema_layer sound.schemas_placed
        (λ x. refl);
  facts_placed = sound.facts_placed;
  passages_placed = sound.passages_placed;
  joined = sound.joined;
}

file_fact_ok :
    (m : Memory) (s i p : ℕ)
    → s < length m.schema_layer
    → i < length m.fact_layer
    → p < length m.passage_layer
    → file_fact m s i p ≡ ok (with_link (with_schema_fact m s i) i p)
unfolding file_fact
file_fact_ok m s i p hs hi hp = ground (
  arith,
  get_elem?-ne-none s m.schema_layer hs,
  join_fact_passage_ok (with_schema_fact m s i) i p hi hp,
)

file_fact-IsFiled :
    (m : Memory) (s i p : ℕ)
    → s < length m.schema_layer
    → ((j t : ℕ)
        → belongs m.fact_layer j t ≡ true
        → (lists facts_of_schema m.schema_layer t j ≡ true) ⊎ (i ≡ j) × (s ≡ t))
    → IsFiled (with_link (with_schema_fact m s i) i p)
file_fact-IsFiled m s i p hs near j t h = ground (
  arith,
  near j t,
  belongs-modify m.fact_layer i j t (add_fact_passage p) (λ f. refl),
  lists-modify_add facts_of_schema m.schema_layer s i t j (add_schema_fact i) (λ n. refl),
)

-- A fact that is made with a schema belongs to that schema; the others stay.
belongs-get_or_create_fact :
    (u : Unicode) (m : Memory) (t : Triple) (s i t' : ℕ)
    → belongs (get_or_create_fact u m t (pos s)).0.fact_layer i t' ≡ true
    → (belongs m.fact_layer i t' ≡ true) ⊎ ((get_or_create_fact u m t (pos s)).1 ≡ i) × (s ≡ t')
unfolding get_or_create_fact belongs
belongs-get_or_create_fact u m t s i t' h =
    let node = new_fact (length m.fact_layer) t (pos s) in
    ground (arith, get_elem?-snoc i m.fact_layer node)

get_or_create_schema-IsFiled :
    (u : Unicode) (m : Memory) (t : Triple) → IsFiled m → IsFiled (get_or_create_schema u m t).0
unfolding get_or_create_schema
get_or_create_schema-IsFiled u m t filed i s h =
    let node = new_schema (length m.schema_layer) t in
    ground (arith, lists-snoc facts_of_schema m.schema_layer node s i, filed i s)

-- A step that does not raise.
record Step (u : Unicode) (m : Memory) (r : Result Memory) : Type 0 where
  pub after : Memory
  pub returns : r ≡ ok after
  pub sound : IsSound u after
  pub filed : IsFiled m → IsFiled after
  pub keeps :
      (i : ℕ) (c : Text)
      → key_at chunk_key m.passage_layer i ≡ some c
      → key_at chunk_key after.passage_layer i ≡ some c

module _ (u : Unicode) where
  Step-ok : (m : Memory) → IsSound u m → Step u m (ok m)
  Step-ok m sound = record {
    after = m;
    returns = refl;
    sound = sound;
    filed = λ h. h;
    keeps = λ i c h. h;
  }

  Step-bind :
      {m : Memory} {r : Result Memory} (f : Memory → Result Memory)
      → (o : Step u m r) → Step u o.after (f o.after)
      → Step u m (r >>= f)
  Step-bind f o o' = record {
    after = o'.after;
    returns = rw o.returns o'.returns;
    sound = o'.sound;
    filed = λ h. o'.filed (o.filed h);
    keeps = λ i c h. o'.keeps i c (o.keeps i c h);
  }

  add_known_entry-Step :
      (m : Memory) (p : ℕ) (c : Text) (t : Triple) (a b d : Text)
      → IsSound u m
      → key_at chunk_key m.passage_layer p ≡ some c
      → Step u m (add_ontology_entry u p m (some t, a ∷ b ∷ d ∷ []))
  unfolding add_ontology_entry
  add_known_entry-Step m p c t a b d sound at =
      let (m₁, s) = get_or_create_schema u m (a, b, d) in
      let (sound₁, found₁) = get_or_create_schema-IsSound u sound (a, b, d) in
      let (m₂, i) = get_or_create_fact u m₁ t (pos s) in
      let (sound₂, found₂) = get_or_create_fact-IsSound u sound₁ t (pos s) in
      let same₁ = passage_layer-get_or_create_schema u m (a, b, d) in
      let same₂ = passage_layer-get_or_create_fact u m₁ t (pos s) in
      let schemas = schema_layer-get_or_create_fact u m₁ t (pos s) in
      let m₃ = with_schema_fact m₂ s i in
      let schema = key_at-lt (schema_key u) m₁.schema_layer s _ found₁ in
      let fact = key_at-lt (fact_key u) m₂.fact_layer i _ found₂ in
      let passage = key_at-lt chunk_key m₂.passage_layer p c (rw (same₂, same₁) at) in
      record {
        after = with_link m₃ i p;
        returns = file_fact_ok m₂ s i p (rw schemas schema) fact passage;
        sound = with_link-IsSound m₃ i p fact passage u (with_schema_fact-IsSound u m₂ s i sound₂);
        filed = λ filed. file_fact-IsFiled m₂ s i p (rw schemas schema) (λ j t' h.
            elim (belongs-get_or_create_fact u m₁ t s j t' h) [
              | inl old ↦
                  inl (rw schemas (get_or_create_schema-IsFiled u m (a, b, d) filed j t' old))
              | inr new ↦ inr new
            ]);
        keeps = λ j e h.
            key_at-modify chunk_key p j (add_passage_fact i) m₂.passage_layer (λ x. refl)
            ∙ rw (same₂, same₁) h;
      }

  add_ontology_entry-Step :
      (m : Memory) (p : ℕ) (c : Text) (entry : Option Triple × List Text)
      → IsSound u m
      → key_at chunk_key m.passage_layer p ≡ some c
      → Step u m (add_ontology_entry u p m entry)
  add_ontology_entry-Step m p c (some t, a ∷ b ∷ d ∷ []) sound at =
      add_known_entry-Step m p c t a b d sound at
  add_ontology_entry-Step m p c _ sound at = unfold add_ontology_entry in Step-ok m sound

  add_ontology_entries-Step :
      (m : Memory) (p : ℕ) (c : Text) (entries : List (Option Triple × List Text))
      → IsSound u m
      → key_at chunk_key m.passage_layer p ≡ some c
      → Step u m (add_ontology_entries u p m entries)
  unfolding add_ontology_entries
  add_ontology_entries-Step m p c [] sound at = Step-ok m sound
  add_ontology_entries-Step m p c (entry ∷ entries) sound at =
      let o = add_ontology_entry-Step m p c entry sound at in
      Step-bind _ o (add_ontology_entries-Step o.after p c entries o.sound (o.keeps p c at))

  add_ontology_map-Step :
      (m : Memory) (chunk_id text : Text) (entries : List (Option Triple × List Text))
      → IsSound u m
      → Step u m (add_ontology_map u m chunk_id text entries)
  unfolding add_ontology_map
  add_ontology_map-Step m chunk_id text [] sound = Step-ok m sound
  add_ontology_map-Step m chunk_id text (entry ∷ entries) sound =
      let (m', p) = get_or_create_passage m chunk_id text in
      let (sound', at) = get_or_create_passage-IsSound u sound chunk_id text in
      let o = add_ontology_entries-Step m' p chunk_id (entry ∷ entries) sound' at in
      record {
        after = o.after;
        returns = o.returns;
        sound = o.sound;
        filed = λ filed. o.filed (λ i s h.
            rw schema_layer-get_or_create_passage
              (filed i s (rw fact_layer-get_or_create_passage at h)));
        keeps = λ i c h. o.keeps i c (key_at-get_or_create_passage m chunk_id text i c h);
      }

  add_ontology_docs-Step :
      (m : Memory) (docs : List OntologyDoc) → IsSound u m → Step u m (add_ontology_docs u m docs)
  unfolding add_ontology_docs add_ontology_doc
  add_ontology_docs-Step m [] sound = Step-ok m sound
  add_ontology_docs-Step m (doc ∷ docs) sound =
      let o = add_ontology_map-Step m doc.idx doc.passage doc.extracted_triple_ontology sound in
      Step-bind _ o (add_ontology_docs-Step o.after docs o.sound)

-- Counting the facts of the schemas.
abbrev schemas_counted : Memory → Memory
schemas_counted m = record m { schema_layer = map count_schema m.schema_layer }

schemas_counted-IsSound : (u : Unicode) (m : Memory) → IsSound u m → IsSound u (schemas_counted m)
schemas_counted-IsSound u m sound = record {
  schemas_keyed =
      IsIndex-same_keys Triple-discrete (schema_key u) sound.schemas_keyed
        (λ i. key_at-map (schema_key u) count_schema m.schema_layer i (λ x. refl));
  facts_keyed = sound.facts_keyed;
  passages_keyed = sound.passages_keyed;
  schemas_placed = λ i j h.
      sound.schemas_placed i j
        (sym (key_at-map schema_position count_schema m.schema_layer i (λ x. refl)) ∙ h);
  facts_placed = sound.facts_placed;
  passages_placed = sound.passages_placed;
  joined = sound.joined;
}

-- From a sound memory in which each fact is listed by the schema that it belongs to, the builder for
-- payloads with ontologies raises nothing and leaves such a memory, in which every frequency, of a
-- schema and of a fact, is the length of the node's list.
pub build_from_openie_results-IsSound :
    (u : Unicode) (m : Memory) (docs : List OntologyDoc)
    → IsSound u m
    → IsFiled m
    → (m' : Memory) × (build_from_openie_results u m docs ≡ ok m')
      × IsSound u m'
      × IsFiled m'
      × AreCounted m'
      × AllNodes (λ (n : SchemaNode). n.frequency ≡ length n.fact_indices) m'.schema_layer
unfolding build_from_openie_results
build_from_openie_results-IsSound u m docs sound filed =
    let o = add_ontology_docs-Step u m docs sound in
    let m' = schemas_counted o.after in
    (
      count_facts m',
      rw o.returns,
      count_facts-IsSound u m' (schemas_counted-IsSound u o.after o.sound),
      λ i s h.
          unfold count_facts in
          lists-map_other facts_of_schema o.after.schema_layer s i count_schema (λ x. refl)
          ∙ o.filed filed i s (sym (belongs-map o.after.fact_layer i s count_fact (λ f. refl)) ∙ h),
      count_facts-AreCounted m',
      unfold count_facts in
          AllNodes-map (λ (n : SchemaNode). n.frequency ≡ length n.fact_indices) count_schema
            o.after.schema_layer (λ i x at. refl),
    )
