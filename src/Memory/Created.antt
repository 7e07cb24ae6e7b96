-- ===== src/Memory/Created.antt =====
-- `_get_or_create_*` finds or makes the node of a key, and keeps the memory sound.
use exeio_memgraphrag.Base.{
  ℕ, ℤ, negsuc, List, [], ◌∷◌, ◌++◌, ◌≡◌, refl, ap, ◌∙◌, AllNodes-snoc, IsDistinct, some, length,
  inl, inr, Option-cases, arith, false, get_elem?, if◌then◌else◌, ◌==◌, get_elem?-snoc,
  get_elem?-length,
}
use exeio_memgraphrag.Base.Dict.{get}
use exeio_memgraphrag.Base.Index.{IsIndex-snoc, IsPlaced-snoc, key_at, key_at-snoc, key_at-length}
use exeio_memgraphrag.Text.Defs.{Text, Text-discrete}
use exeio_memgraphrag.Text.Canonical.{Unicode, Triple, canonical_triple}
use exeio_memgraphrag.Memory.Nodes.{FactNode, Memory, Triple-discrete}
use exeio_memgraphrag.Memory.Create.{
  new_schema, new_fact, new_passage, get_or_create_schema, get_or_create_fact,
  get_or_create_passage,
}
use exeio_memgraphrag.Memory.Relation.{lists-snoc}
use exeio_memgraphrag.Memory.Invariant.{
  IsSound, IsClassified, IsTidy, AreListedOnce, schema_key, fact_key, chunk_key, schema_position,
  fact_position, passage_position, facts_of_schema, passages_of_fact, facts_of_passage, belongs,
  is_position,
}

get_or_create_fact_known :
    (u : Unicode) (m : Memory) (t : Triple) (z : ℤ) {i : ℕ}
    → get Triple-discrete (canonical_triple u t) m.fact_to_idx ≡ some i
    → get_or_create_fact u m t z ≡ (m, i)
unfolding get_or_create_fact
get_or_create_fact_known u m t z known = rw (known, get_or_create_fact)

module _ (u : Unicode) {m : Memory} (sound : IsSound u m) where
  open sound use {
    schemas_keyed, facts_keyed, passages_keyed, schemas_placed, facts_placed, passages_placed,
    joined,
  }

  -- The position that is returned is that of a node with the key.
  pub get_or_create_fact-IsSound :
      (t : Triple) (z : ℤ)
      → let (m', i) = get_or_create_fact u m t z in
        IsSound u m' × (key_at (fact_key u) m'.fact_layer i ≡ some (canonical_triple u t))
  unfolding get_or_create_fact
  get_or_create_fact-IsSound t z =
      elim (Option-cases (get Triple-discrete (canonical_triple u t) m.fact_to_idx)) [
        | inl new ↦
            rw (new, get_or_create_fact)
              (
                record {
                  schemas_keyed = schemas_keyed;
                  facts_keyed = IsIndex-snoc Triple-discrete (fact_key u) facts_keyed _ new;
                  passages_keyed = passages_keyed;
                  schemas_placed = schemas_placed;
                  facts_placed = IsPlaced-snoc fact_position m.fact_layer _ facts_placed refl;
                  passages_placed = passages_placed;
                  joined = λ i p. ground (
                    arith,
                    lists-snoc passages_of_fact m.fact_layer (new_fact (length m.fact_layer) t z) i
                        p,
                    joined i p,
                  );
                },
                ground (
                  arith,
                  key_at-snoc (fact_key u) m.fact_layer (new_fact (length m.fact_layer) t z)
                      (length m.fact_layer),
                ),
              )
        | inr (i, known) ↦ rw (known, get_or_create_fact) (sound, facts_keyed.sound _ i known)
      ]

  pub get_or_create_schema-IsSound :
      (t : Triple)
      → let (m', i) = get_or_create_schema u m t in
        IsSound u m' × (key_at (schema_key u) m'.schema_layer i ≡ some (canonical_triple u t))
  unfolding get_or_create_schema
  get_or_create_schema-IsSound t =
      let idx = length m.schema_layer in
      elim (Option-cases (get Triple-discrete (canonical_triple u t) m.schema_to_idx)) [
        | inl new ↦
            rw (new, get_or_create_schema)
              (
                record {
                  schemas_keyed = IsIndex-snoc Triple-discrete (schema_key u) schemas_keyed _ new;
                  facts_keyed = facts_keyed;
                  passages_keyed = passages_keyed;
                  schemas_placed =
                      IsPlaced-snoc schema_position m.schema_layer _ schemas_placed refl;
                  facts_placed = facts_placed;
                  passages_placed = passages_placed;
                  joined = joined;
                },
                ground (arith, key_at-snoc (schema_key u) m.schema_layer (new_schema idx t) idx),
              )
        | inr (i, known) ↦ rw (known, get_or_create_schema) (sound, schemas_keyed.sound _ i known)
      ]

  pub get_or_create_passage-IsSound :
      (chunk_id text : Text)
      → let (m', i) = get_or_create_passage m chunk_id text in
        IsSound u m' × (key_at chunk_key m'.passage_layer i ≡ some chunk_id)
  unfolding get_or_create_passage
  get_or_create_passage-IsSound chunk_id text =
      let idx = length m.passage_layer in
      let node = new_passage idx chunk_id text in
      elim (Option-cases (get Text-discrete chunk_id m.chunk_id_to_idx)) [
        | inl new ↦
            rw (new, get_or_create_passage)
              (
                record {
                  schemas_keyed = schemas_keyed;
                  facts_keyed = facts_keyed;
                  passages_keyed = IsIndex-snoc Text-discrete chunk_key passages_keyed node new;
                  schemas_placed = schemas_placed;
                  facts_placed = facts_placed;
                  passages_placed =
                      IsPlaced-snoc passage_position m.passage_layer node passages_placed refl;
                  joined = λ i p.
                      ground
                        (arith, lists-snoc facts_of_passage m.passage_layer node p i, joined i p);
                },
                ground (arith, key_at-snoc chunk_key m.passage_layer node idx),
              )
        | inr (i, known) ↦ rw (known, get_or_create_passage) (sound, passages_keyed.sound _ i known)
      ]

  -- The second of two calls with labels of the same key finds what the first one made or found, and
  -- changes nothing: no spelling of a triple makes a second fact.
  pub get_or_create_fact_again :
      (t t' : Triple) (z z' : ℤ)
      → canonical_triple u t ≡ canonical_triple u t'
      → get_or_create_fact u (get_or_create_fact u m t z).0 t' z' ≡ get_or_create_fact u m t z
  get_or_create_fact_again t t' z z' same =
      let (kept, at) = get_or_create_fact-IsSound t z in
      get_or_create_fact_known u _ t' z' (kept.facts_keyed.complete _ _ (at ∙ ap some same))

-- A new fact lists no passage.
pub get_or_create_fact-AreListedOnce :
    (u : Unicode) (m : Memory) (t : Triple) (z : ℤ)
    → AreListedOnce m
    → AreListedOnce (get_or_create_fact u m t z).0
get_or_create_fact-AreListedOnce u m t z once =
    let node = new_fact (length m.fact_layer) t z in
    elim (Option-cases (get Triple-discrete (canonical_triple u t) m.fact_to_idx)) [
      | inl new ↦
          unfold get_or_create_fact in
          rw (new, get_or_create_fact)
            (AllNodes-snoc (λ (f : FactNode). IsDistinct f.passage_indices) m.fact_layer node once
              tt)
      | inr (i, known) ↦ unfold get_or_create_fact in rw (known, get_or_create_fact) once
    ]

-- What each of the three leaves alone.
module _ (u : Unicode) (m : Memory) where
  pub passage_layer-get_or_create_fact :
      (t : Triple) (z : ℤ) → (get_or_create_fact u m t z).0.passage_layer ≡ m.passage_layer
  unfolding get_or_create_fact
  passage_layer-get_or_create_fact t z = ground arith

  pub schema_layer-get_or_create_fact :
      (t : Triple) (z : ℤ) → (get_or_create_fact u m t z).0.schema_layer ≡ m.schema_layer
  unfolding get_or_create_fact
  schema_layer-get_or_create_fact t z = ground arith

  pub fact_layer-get_or_create_schema :
      (t : Triple) → (get_or_create_schema u m t).0.fact_layer ≡ m.fact_layer
  unfolding get_or_create_schema
  fact_layer-get_or_create_schema t = ground arith

  pub passage_layer-get_or_create_schema :
      (t : Triple) → (get_or_create_schema u m t).0.passage_layer ≡ m.passage_layer
  unfolding get_or_create_schema
  passage_layer-get_or_create_schema t = ground arith

  -- Facts are only added, at the end.
  pub get_elem?-get_or_create_fact :
      (t : Triple) (z : ℤ) (i : ℕ) {f : FactNode}
      → get_elem? m.fact_layer i ≡ some f
      → get_elem? (get_or_create_fact u m t z).0.fact_layer i ≡ some f
  unfolding get_or_create_fact
  get_elem?-get_or_create_fact t z i h = ground (
    arith,
    get_elem?-snoc i m.fact_layer (new_fact (length m.fact_layer) t z),
    get_elem?-length m.fact_layer,
  )

pub schema_layer-get_or_create_passage :
    (m : Memory) (chunk_id text : Text)
    → (get_or_create_passage m chunk_id text).0.schema_layer ≡ m.schema_layer
unfolding get_or_create_passage
schema_layer-get_or_create_passage m chunk_id text = ground arith

pub fact_layer-get_or_create_passage :
    (m : Memory) (chunk_id text : Text)
    → (get_or_create_passage m chunk_id text).0.fact_layer ≡ m.fact_layer
unfolding get_or_create_passage
fact_layer-get_or_create_passage m chunk_id text = ground arith

-- Passages are only added, at the end.
pub key_at-get_or_create_passage :
    (m : Memory) (chunk_id text : Text) (i : ℕ) (c : Text)
    → key_at chunk_key m.passage_layer i ≡ some c
    → key_at chunk_key (get_or_create_passage m chunk_id text).0.passage_layer i ≡ some c
unfolding get_or_create_passage
key_at-get_or_create_passage m chunk_id text i c h =
    let idx = length m.passage_layer in
    ground (
      arith,
      key_at-snoc chunk_key m.passage_layer (new_passage idx chunk_id text) i,
      key_at-length chunk_key m.passage_layer,
    )

-- A new schema is empty, and a new fact with no schema belongs to none.
belongs-snoc :
    (facts : List FactNode) (f : FactNode) (i s : ℕ)
    → belongs (facts ++ f ∷ []) i s
      ≡ (if i == length facts then is_position s f.schema_idx else belongs facts i s)
unfolding belongs
belongs-snoc facts f i s = ground (arith, get_elem?-snoc i facts f)

belongs-length : (facts : List FactNode) (s : ℕ) → belongs facts (length facts) s ≡ false
unfolding belongs
belongs-length facts s = rw (get_elem?-length facts, belongs)

module _ (u : Unicode) (m : Memory) (classified : IsClassified m) where
  pub get_or_create_schema-IsClassified : (t : Triple) → IsClassified (get_or_create_schema u m t).0
  unfolding get_or_create_schema
  get_or_create_schema-IsClassified t =
      let node = new_schema (length m.schema_layer) t in
      elim (Option-cases (get Triple-discrete (canonical_triple u t) m.schema_to_idx)) [
        | inl new ↦
            rw (new, get_or_create_schema)
              (record {
                listed = λ s i.
                    lists-snoc facts_of_schema m.schema_layer node s i refl ∙ classified.listed s i;
                tidy =
                    AllNodes-snoc IsTidy m.schema_layer node classified.tidy
                      (record { distinct = tt; counted = refl });
              })
        | inr (i, known) ↦ rw (known, get_or_create_schema) classified
      ]

  pub get_or_create_fact-IsClassified :
      (t : Triple) (n : ℕ) → IsClassified (get_or_create_fact u m t (negsuc n)).0
  get_or_create_fact-IsClassified t n = record {
    listed = λ s i.
        let node = new_fact (length m.fact_layer) t (negsuc n) in
        unfold get_or_create_fact in
        ground (
          arith,
          belongs-snoc m.fact_layer node i s,
          belongs-length m.fact_layer s,
          classified.listed s i,
        );
    tidy = rw schema_layer-get_or_create_fact classified.tidy;
  }

  pub get_or_create_passage-IsClassified :
      (chunk_id text : Text) → IsClassified (get_or_create_passage m chunk_id text).0
  get_or_create_passage-IsClassified chunk_id text =
      elim (Option-cases (get Text-discrete chunk_id m.chunk_id_to_idx)) [
        | inl new ↦
            unfold get_or_create_passage in
            rw (new, get_or_create_passage)
              (record { listed = classified.listed; tidy = classified.tidy })
        | inr (i, known) ↦
            unfold get_or_create_passage in rw (known, get_or_create_passage) classified
      ]
