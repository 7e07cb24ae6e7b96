-- ===== src/Memory/Renamed.antt =====
-- What `replace_fact` of memgraphrag/memory.py does where no other fact has the new key.
use exeio_memgraphrag.Base.{
  ℕ, pos, List, ◌≡◌, ◌≢◌, ◌<◌, none, some, refl, sym, ap, ◌∙◌, length, modify, arith, ok, get_elem?,
  get_elem?_of_lt, get_elem?-modify, if◌then◌else◌, ◌==◌,
}
use exeio_memgraphrag.Base.Dict.{get, put, pop, get-put, get-pop}
use exeio_memgraphrag.Base.Index.{IsIndex, key_at, IsPlaced-modify}
use exeio_memgraphrag.Text.Canonical.{Unicode, Triple, canonical_triple}
use exeio_memgraphrag.Memory.Nodes.{FactNode, Memory, Triple-discrete}
use exeio_memgraphrag.Memory.Edit.{rename_fact, other_fact, replace_fact}
use exeio_memgraphrag.Memory.Relation.{lists-modify_other}
use exeio_memgraphrag.Memory.Invariant.{
  IsSound, IsClassified, fact_key, fact_position, passages_of_fact,
}
use exeio_memgraphrag.Memory.Joined.{belongs-modify}

-- A key that changes, in the list and in the dictionary.
IsIndex-rename :
    {A K : Type 0} (dec : Discrete K) (key : A → K) (d : List (K × ℕ)) (xs ys : List A) (i : ℕ)
    (old new : K)
    → IsIndex dec key d xs
    → key_at key xs i ≡ some old
    → ((j : ℕ) → key_at key ys j ≡ (if j == i then some new else key_at key xs j))
    → ((j : ℕ) → get dec new d ≡ some j → j ≡ i)
    → IsIndex dec key (put dec new i (pop dec old d)) ys
IsIndex-rename dec key d xs ys i old new fits here changed free = record {
  sound = λ k j h. ground (
    arith,
    get-put dec new k i (pop dec old d),
    get-pop dec old k d,
    fits.sound k j,
    changed j,
    here,
  );
  complete = λ k j h. ground (
    arith,
    get-put dec new k i (pop dec old d),
    get-pop dec old k d,
    fits.complete k j,
    fits.complete old i here,
    changed j,
    free j,
  );
}

free_key :
    (u : Unicode) (m : Memory) (i : ℕ) (t : Triple)
    → other_fact u m i t ≡ none
    → (j : ℕ) → get Triple-discrete (canonical_triple u t) m.fact_to_idx ≡ some j
    → j ≡ i
unfolding other_fact
free_key u m i t alone j h = ground (arith, alone, h)

-- The fact under its new triple.
abbrev set_content : Triple → FactNode → FactNode
set_content t f = record f { content = t }

key_at_here :
    (u : Unicode) (m : Memory) (i : ℕ) (f : FactNode)
    → get_elem? m.fact_layer i ≡ some f
    → key_at (fact_key u) m.fact_layer i ≡ some (canonical_triple u f.content)
unfolding key_at
key_at_here u m i f at = ground (arith, at)

replace_fact_same :
    (u : Unicode) (m : Memory) (i : ℕ) (f : FactNode) (t : Triple)
    → get_elem? m.fact_layer i ≡ some f
    → f.content ≡ t
    → replace_fact u m i t ≡ ok (m, pos i)
unfolding replace_fact
replace_fact_same u m i f t at same = ground (arith, at, same)

replace_fact_renames :
    (u : Unicode) (m : Memory) (i : ℕ) (f : FactNode) (t : Triple)
    → get_elem? m.fact_layer i ≡ some f
    → f.content ≢ t
    → other_fact u m i t ≡ none
    → replace_fact u m i t ≡ ok (rename_fact u m i f t, pos i)
unfolding replace_fact
replace_fact_renames u m i f t at different alone = ground (arith, at, different, alone)

module _ (u : Unicode) (m : Memory) (i : ℕ) (f : FactNode) (t : Triple)
    (at : get_elem? m.fact_layer i ≡ some f)
    (free : (j : ℕ)
      → get Triple-discrete (canonical_triple u t) m.fact_to_idx ≡ some j
      → j ≡ i) where
  key_at-set_content :
      (j : ℕ)
      → key_at (fact_key u) (modify i (set_content t) m.fact_layer) j
        ≡ (if j == i then some (canonical_triple u t) else key_at (fact_key u) m.fact_layer j)
  unfolding key_at
  key_at-set_content j = ground (arith, get_elem?-modify i j (set_content t) m.fact_layer, at)

  rename_fact-IsSound : IsSound u m → IsSound u (rename_fact u m i f t)
  unfolding rename_fact
  rename_fact-IsSound sound = record {
    schemas_keyed = sound.schemas_keyed;
    facts_keyed =
        IsIndex-rename Triple-discrete (fact_key u) m.fact_to_idx m.fact_layer
          (modify i (set_content t) m.fact_layer) i (canonical_triple u f.content)
          (canonical_triple u t) sound.facts_keyed (key_at_here u m i f at) key_at-set_content free;
    passages_keyed = sound.passages_keyed;
    schemas_placed = sound.schemas_placed;
    facts_placed =
        IsPlaced-modify fact_position i (set_content t) m.fact_layer sound.facts_placed (λ x. refl);
    passages_placed = sound.passages_placed;
    joined = λ j p.
        lists-modify_other passages_of_fact m.fact_layer i j p (set_content t) (λ x. refl)
        ∙ sound.joined j p;
  }

  rename_fact-IsClassified : IsClassified m → IsClassified (rename_fact u m i f t)
  unfolding rename_fact
  rename_fact-IsClassified classified = record {
    listed = λ s j.
        classified.listed s j ∙ sym (belongs-modify m.fact_layer i j s (set_content t) (λ x. refl));
    tidy = classified.tidy;
  }

-- A fact gets a triple whose key no other fact of a sound and classified memory has: nothing is
-- raised, the memory stays sound and classified, and the fact keeps its position, where the key is
-- now that of the triple.
pub replace_fact-IsSound :
    (u : Unicode) (m : Memory) (i : ℕ) (t : Triple)
    → i < length m.fact_layer
    → other_fact u m i t ≡ none
    → IsSound u m
    → IsClassified m
    → (m' : Memory) × (replace_fact u m i t ≡ ok (m', pos i))
      × IsSound u m'
      × IsClassified m'
      × (key_at (fact_key u) m'.fact_layer i ≡ some (canonical_triple u t))
replace_fact-IsSound u m i t here alone sound classified =
    let (f, at) = get_elem?_of_lt i m.fact_layer here in
    elim (Triple-discrete f.content t) [
      | yes same ↦ (
        m,
        replace_fact_same u m i f t at same,
        sound,
        classified,
        key_at_here u m i f at ∙ ap (λ c. some (canonical_triple u c)) same,
      )
      | no other ↦
          let free = free_key u m i t alone in
          (
            rename_fact u m i f t,
            replace_fact_renames u m i f t at other alone,
            rename_fact-IsSound u m i f t at free sound,
            rename_fact-IsClassified u m i f t at free classified,
            unfold rename_fact in (key_at-set_content u m i f t at free i ∙ ground arith),
          )
    ]
