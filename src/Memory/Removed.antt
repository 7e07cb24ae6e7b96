-- ===== src/Memory/Removed.antt =====
-- `remove_fact` takes one fact out, renumbers the others, and leaves the memory sound.
use exeio_memgraphrag.Base.{
  ℕ, zero, suc, ◌<◌, ◌≤◌, List, [], ◌∷◌, Bool, true, false, ◌&&◌, ◌≡◌, ◌≢◌, refl, sym, ap, ◌∙◌,
  some, get_elem?, get_elem?-lt, length, delete, map, arith, ltb, Option-cases, inl, inr,
  get_elem?-delete, get_elem?-map, length-delete, get_elem?_of_lt, get_elem?_of_le, ℕ_discrete,
  AllNodes-map,
}
use mathlib.Core.Option
use native.Mathlib.Nat.{zero-add}
use exeio_memgraphrag.Base.Index.{
  IsIndex, IsIndex-same_keys, IsIndex-HasDistinctKeys, HasDistinctKeys, key_at, key_at-map,
  enumerate_into, enumerate-IsIndex, index_into, index_into-eq-enumerate,
}
use exeio_memgraphrag.Text.Defs.{Text-discrete}
use exeio_memgraphrag.Text.Canonical.{Unicode, Triple}
use exeio_memgraphrag.Memory.Nodes.{FactNode, Memory, Triple-discrete}
use exeio_memgraphrag.Memory.Edit.{
  renumber, remap, remap_schema, remap_passage, drop_passage_fact, count_fact, detach_schema,
  modify_each, rebuild_fact_indices, without_fact, remove_fact,
}
use exeio_memgraphrag.Memory.Relation.{lists, lists_of_le, lists-map_other}
use exeio_memgraphrag.Memory.Invariant.{
  IsSound, IsClassified, IsTidy, IsJoined, schema_key, fact_key, chunk_key, schema_position,
  fact_position, passage_position, facts_of_schema, passages_of_fact, facts_of_passage, belongs,
}
use exeio_memgraphrag.Memory.Built.{AreCounted, belongs-map}
use exeio_memgraphrag.Memory.Renumber.{
  before, Moves, enumerate_into-Moves, key_at-delete, HasDistinctKeys-delete, key_at-renumber,
  renumber-IsNumbered, renumber-positions, contains-remap, remap-IsDistinct,
}
use exeio_memgraphrag.Memory.Detached.{
  key_at-detach_schema, detach_schema-AllNodes, lists-detach_schema, key_at-modify_each,
  lists-modify_each,
}

-- A layer whose lists of facts are written again with the new positions.
lists-remap :
    {A : Type 0} (field : A → List ℕ) (g : A → A) {d : List (ℕ × ℕ)} {k len : ℕ} (xs : List A)
    (i j : ℕ)
    → Moves d k len
    → ((x : A) → field (g x) ≡ remap d (field x))
    → lists field (map g xs) i j ≡ (ltb j len && lists field xs i (before k j))
unfolding lists
lists-remap field g {d} {k} {len} xs i j moves same = elim (Option-cases (get_elem? xs i)) [
  | inl gone ↦ ground (arith, get_elem?-map g i xs)
  | inr (x, there) ↦ ground (arith, get_elem?-map g i xs, same x, contains-remap moves (field x) j)
]

lists-renumber :
    (i : ℕ) (xs : List FactNode) (j p : ℕ)
    → lists passages_of_fact (renumber i xs) j p ≡ lists passages_of_fact xs j p
unfolding renumber lists
lists-renumber i [] j p = refl
lists-renumber i (x ∷ xs) zero p = refl
lists-renumber i (x ∷ xs) (suc j) p = lists-renumber (suc i) xs j p

belongs-renumber :
    (i : ℕ) (xs : List FactNode) (j s : ℕ) → belongs (renumber i xs) j s ≡ belongs xs j s
unfolding renumber belongs
belongs-renumber i [] j s = refl
belongs-renumber i (x ∷ xs) zero s = refl
belongs-renumber i (x ∷ xs) (suc j) s = belongs-renumber (suc i) xs j s

lists-delete :
    (k j p : ℕ) (xs : List FactNode)
    → lists passages_of_fact (delete k xs) j p ≡ lists passages_of_fact xs (before k j) p
unfolding lists
lists-delete k j p xs = rw (get_elem?-delete k j xs, lists)

belongs-delete :
    (k j s : ℕ) (xs : List FactNode) → belongs (delete k xs) j s ≡ belongs xs (before k j) s
unfolding belongs
belongs-delete k j s xs = rw (get_elem?-delete k j xs, belongs)

belongs_of_le : (xs : List FactNode) (j s : ℕ) → length xs ≤ j → belongs xs j s ≡ false
unfolding belongs
belongs_of_le xs j s h = rw (get_elem?_of_le j xs h, belongs)

abbrev pub contents_of : List FactNode → List Triple
contents_of = map (λ (f : FactNode). f.content)

contents-renumber :
    (i : ℕ) (xs : List FactNode) → contents_of (map count_fact (renumber i xs)) ≡ contents_of xs
unfolding renumber
contents-renumber i [] = refl
contents-renumber i (x ∷ xs) = ap (◌∷◌ x.content) (contents-renumber (suc i) xs)

contents-delete :
    (k : ℕ) (xs : List FactNode) → contents_of (delete k xs) ≡ delete k (contents_of xs)
contents-delete k [] = refl
contents-delete zero (x ∷ xs) = refl
contents-delete (suc k) (x ∷ xs) = ap (◌∷◌ x.content) (contents-delete k xs)

module _ (u : Unicode) (m : Memory) (k : ℕ) (f : FactNode) (at : get_elem? m.fact_layer k ≡ some f)
    (sound : IsSound u m) where
  abbrev rest : List FactNode
  rest = delete k m.fact_layer

  abbrev new_facts : List FactNode
  new_facts = map count_fact (renumber 0 rest)

  abbrev removed : Memory
  removed = rebuild_fact_indices u (without_fact m k f)

  moves : Moves (enumerate_into ℕ_discrete fact_position 0 rest []) k (length rest)
  moves = enumerate_into-Moves k m.fact_layer sound.facts_placed

  own_position : f.idx ≡ k
  unfolding key_at
  own_position = sound.facts_placed k f.idx (ap (Option.map fact_position) at)

  key_at-new_facts :
      {K : Type 0} (key : FactNode → K) (j : ℕ)
      → ((g : FactNode) (n : ℕ) → key (record g { idx = n }) ≡ key g)
      → ((g : FactNode) → key (count_fact g) ≡ key g)
      → key_at key new_facts j ≡ key_at key m.fact_layer (before k j)
  key_at-new_facts key j same same' =
      key_at-map key count_fact (renumber 0 rest) j same'
      ∙ key_at-renumber key 0 rest j same
      ∙ key_at-delete key k j m.fact_layer

  distinct_keys : HasDistinctKeys Triple-discrete (fact_key u) (renumber 0 rest)
  distinct_keys x i j p q =
      HasDistinctKeys-delete (fact_key u) Triple-discrete k m.fact_layer
        (IsIndex-HasDistinctKeys Triple-discrete (fact_key u) sound.facts_keyed) x i j
        (sym (key_at-renumber (fact_key u) 0 rest i (λ g n. refl)) ∙ p)
        (sym (key_at-renumber (fact_key u) 0 rest j (λ g n. refl)) ∙ q)

  new_facts_keyed :
      IsIndex Triple-discrete
        (fact_key u)
        (index_into Triple-discrete (fact_key u) fact_position (renumber 0 rest) [])
        new_facts
  new_facts_keyed =
      IsIndex-same_keys Triple-discrete (fact_key u)
        (rw
          (index_into-eq-enumerate Triple-discrete (fact_key u) fact_position 0 (renumber 0 rest) []
            (renumber-IsNumbered 0 rest))
          (enumerate-IsIndex Triple-discrete (fact_key u) (renumber 0 rest) distinct_keys))
        (λ i. key_at-map (fact_key u) count_fact (renumber 0 rest) i (λ x. refl))

  before-ne : (j : ℕ) → f.idx ≢ before k j
  before-ne j e = ground (arith, own_position)

  -- A position that stood past the end is past the end.
  in_range :
      (j : ℕ) (b : Bool)
      → (length m.fact_layer ≤ before k j → b ≡ false)
      → (ltb j (length rest) && b) ≡ b
  in_range j b out =
      let here = get_elem?-lt k m.fact_layer at in
      ground (arith, here, length-delete k m.fact_layer here, out)

  lists-new_facts :
      (j p : ℕ)
      → lists passages_of_fact new_facts j p ≡ lists passages_of_fact m.fact_layer (before k j) p
  lists-new_facts j p =
      lists-map_other passages_of_fact (renumber 0 rest) j p count_fact (λ x. refl)
      ∙ lists-renumber 0 rest j p
      ∙ lists-delete k j p m.fact_layer

  removed-IsJoined : IsJoined removed.fact_layer removed.passage_layer
  unfolding rebuild_fact_indices without_fact
  removed-IsJoined j p =
      let d = enumerate_into ℕ_discrete fact_position 0 rest [] in
      let passages = modify_each (drop_passage_fact f.idx) f.passage_indices m.passage_layer in
      let listed = lists facts_of_passage m.passage_layer p (before k j) in
      let same = sound.joined (before k j) p in
      lists-new_facts j p
      ∙ same
      ∙ sym (
          in_range j listed
            (λ h. sym same ∙ lists_of_le passages_of_fact m.fact_layer (before k j) p h))
      ∙ ap (λ b. ltb j (length rest) && b)
          (sym (
            lists-modify_each f.idx f.passage_indices m.passage_layer p (before k j) (before-ne j)))
      ∙ sym (lists-remap facts_of_passage (remap_passage d) passages p j moves (λ x. refl))

  removed-IsSound : IsSound u removed
  unfolding rebuild_fact_indices without_fact
  removed-IsSound =
      let d = enumerate_into ℕ_discrete fact_position 0 rest [] in
      let schemas = detach_schema f.idx f.schema_idx m.schema_layer in
      let passages = modify_each (drop_passage_fact f.idx) f.passage_indices m.passage_layer in
      record {
        schemas_keyed = IsIndex-same_keys Triple-discrete (schema_key u) sound.schemas_keyed (λ i.
            key_at-map (schema_key u) (remap_schema d) schemas i (λ x. refl)
            ∙ key_at-detach_schema f.idx (schema_key u) f.schema_idx m.schema_layer i (λ x. refl));
        facts_keyed = new_facts_keyed;
        passages_keyed = IsIndex-same_keys Text-discrete chunk_key sound.passages_keyed (λ i.
            key_at-map chunk_key (remap_passage d) passages i (λ x. refl)
            ∙ key_at-modify_each f.idx chunk_key f.passage_indices m.passage_layer i (λ x. refl));
        schemas_placed = λ i j h. sound.schemas_placed i j (
            sym (
              key_at-map schema_position (remap_schema d) schemas i (λ x. refl)
              ∙ key_at-detach_schema f.idx schema_position f.schema_idx m.schema_layer i
                  (λ x. refl))
            ∙ h);
        facts_placed = λ i j h.
            renumber-positions 0 rest i j
              (sym (key_at-map fact_position count_fact (renumber 0 rest) i (λ x. refl)) ∙ h)
            ∙ zero-add i;
        passages_placed = λ i j h. sound.passages_placed i j (
            sym (
              key_at-map passage_position (remap_passage d) passages i (λ x. refl)
              ∙ key_at-modify_each f.idx passage_position f.passage_indices m.passage_layer i
                  (λ x. refl))
            ∙ h);
        joined = removed-IsJoined;
      }

  belongs-new_facts : (j s : ℕ) → belongs new_facts j s ≡ belongs m.fact_layer (before k j) s
  belongs-new_facts j s =
      belongs-map (renumber 0 rest) j s count_fact (λ x. refl)
      ∙ belongs-renumber 0 rest j s
      ∙ belongs-delete k j s m.fact_layer

  removed-IsClassified : IsClassified m → IsClassified removed
  unfolding rebuild_fact_indices without_fact
  removed-IsClassified cl =
      let d = enumerate_into ℕ_discrete fact_position 0 rest [] in
      let schemas = detach_schema f.idx f.schema_idx m.schema_layer in
      record {
        listed = λ s j.
            let same = cl.listed s (before k j) in
            lists-remap facts_of_schema (remap_schema d) schemas s j moves (λ x. refl)
            ∙ ap (λ b. ltb j (length rest) && b)
                (lists-detach_schema f.idx f.schema_idx m.schema_layer s (before k j) (before-ne j)
                  ∙ same)
            ∙ in_range j (belongs m.fact_layer (before k j) s)
                (belongs_of_le m.fact_layer (before k j) s)
            ∙ sym (belongs-new_facts j s);
        tidy = AllNodes-map IsTidy (remap_schema d) schemas (λ i n there. record {
          distinct =
              remap-IsDistinct moves n.fact_indices
                (detach_schema-AllNodes f.idx f.schema_idx m.schema_layer cl.tidy i n
                  there).distinct;
          counted = refl;
        });
      }

  removed-AreCounted : AreCounted removed
  unfolding rebuild_fact_indices without_fact
  removed-AreCounted =
      AllNodes-map (λ (g : FactNode). g.frequency ≡ length g.passage_indices) count_fact
        (renumber 0 rest) (λ i x h. refl)

-- A fact of a sound and classified memory is taken out: the others keep their contents and their
-- order, the memory stays sound and classified under the new positions, and every frequency of a
-- fact is the number of its passages.
pub remove_fact-IsSound :
    (u : Unicode) (m : Memory) (k : ℕ)
    → k < length m.fact_layer
    → IsSound u m
    → IsClassified m
    → let (m', done) = remove_fact u m k in
      (done ≡ true)
      × IsSound u m'
      × IsClassified m'
      × AreCounted m'
      × (contents_of m'.fact_layer ≡ delete k (contents_of m.fact_layer))
unfolding remove_fact
remove_fact-IsSound u m k here sound cl =
    let (f, at) = get_elem?_of_lt k m.fact_layer here in
    rw (at, remove_fact)
      (
        refl,
        removed-IsSound u m k f at sound,
        removed-IsClassified u m k f at sound cl,
        removed-AreCounted u m k f at sound,
        unfold rebuild_fact_indices without_fact in
            (contents-renumber 0 (delete k m.fact_layer) ∙ contents-delete k m.fact_layer),
      )

-- A position that is not one of a fact changes nothing.
pub remove_fact_out_of_range :
    (u : Unicode) (m : Memory) (k : ℕ) → length m.fact_layer ≤ k → remove_fact u m k ≡ (m, false)
unfolding remove_fact
remove_fact_out_of_range u m k out = rw (get_elem?_of_le k m.fact_layer out, remove_fact)
