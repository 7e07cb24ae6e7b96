-- ===== src/Memory/Joined.antt =====
-- Joining a fact and a passage keeps the memory sound.
use exeio_memgraphrag.Base.{
  ℕ, ◌<◌, List, ◌≡◌, refl, sym, ◌∙◌, length, modify, ok, arith, get_elem?-ne-none, get_elem?-modify,
  IsDistinct, AllNodes-modify, add_index-IsDistinct,
}
use exeio_memgraphrag.Base.Index.{IsIndex-same_keys, IsPlaced-modify, key_at-modify}
use exeio_memgraphrag.Text.Defs.{Text-discrete}
use exeio_memgraphrag.Text.Canonical.{Unicode}
use exeio_memgraphrag.Memory.Nodes.{FactNode, Memory, Triple-discrete}
use exeio_memgraphrag.Memory.Link.{add_fact_passage, add_passage_fact}
use exeio_memgraphrag.Memory.Build.{join_fact_passage}
use exeio_memgraphrag.Memory.Relation.{lists-modify_add}
use exeio_memgraphrag.Memory.Invariant.{
  IsSound, IsClassified, AreListedOnce, fact_key, chunk_key, fact_position, passage_position,
  passages_of_fact, facts_of_passage, belongs,
}

-- The memory after a fact and a passage are joined.
abbrev pub with_link : Memory → ℕ → ℕ → Memory
with_link m i p = record m {
  fact_layer = modify i (add_fact_passage p) m.fact_layer;
  passage_layer = modify p (add_passage_fact i) m.passage_layer;
}

module _ (m : Memory) (i p : ℕ) (fact : i < length m.fact_layer)
    (passage : p < length m.passage_layer) where
  -- No index is out of range.
  pub join_fact_passage_ok : join_fact_passage m i p ≡ ok (with_link m i p)
  unfolding join_fact_passage
  join_fact_passage_ok =
      ground
        (arith, get_elem?-ne-none i m.fact_layer fact, get_elem?-ne-none p m.passage_layer passage)

  pub with_link-IsSound : (u : Unicode) → IsSound u m → IsSound u (with_link m i p)
  with_link-IsSound u sound = record {
    schemas_keyed = sound.schemas_keyed;
    facts_keyed =
        IsIndex-same_keys Triple-discrete (fact_key u) sound.facts_keyed
          (λ j. key_at-modify (fact_key u) i j (add_fact_passage p) m.fact_layer (λ x. refl));
    passages_keyed =
        IsIndex-same_keys Text-discrete chunk_key sound.passages_keyed
          (λ j. key_at-modify chunk_key p j (add_passage_fact i) m.passage_layer (λ x. refl));
    schemas_placed = sound.schemas_placed;
    facts_placed =
        IsPlaced-modify fact_position i (add_fact_passage p) m.fact_layer sound.facts_placed
          (λ x. refl);
    passages_placed =
        IsPlaced-modify passage_position p (add_passage_fact i) m.passage_layer
          sound.passages_placed (λ x. refl);
    joined = λ j q. ground (
      arith,
      lists-modify_add passages_of_fact m.fact_layer i p j q (add_fact_passage p) (λ x. refl),
      lists-modify_add facts_of_passage m.passage_layer p i q j (add_passage_fact i) (λ x. refl),
      sound.joined j q,
    );
  }

-- The schema of a fact is not touched.
pub belongs-modify :
    (facts : List FactNode) (k i s : ℕ) (g : FactNode → FactNode)
    → ((f : FactNode) → (g f).schema_idx ≡ f.schema_idx)
    → belongs (modify k g facts) i s ≡ belongs facts i s
unfolding belongs
belongs-modify facts k i s g same = grind (arith, get_elem?-modify k i g facts, same)

-- The passage is listed only if the fact does not list it yet.
pub with_link-AreListedOnce :
    (m : Memory) (i p : ℕ) → AreListedOnce m → AreListedOnce (with_link m i p)
with_link-AreListedOnce m i p once =
    AllNodes-modify (λ (f : FactNode). IsDistinct f.passage_indices) i (add_fact_passage p)
      m.fact_layer (λ f h. add_index-IsDistinct p f.passage_indices h) once

pub with_link-IsClassified :
    (m : Memory) (i p : ℕ) → IsClassified m → IsClassified (with_link m i p)
with_link-IsClassified m i p classified = record {
  listed = λ s j.
      classified.listed s j
      ∙ sym (belongs-modify m.fact_layer i j s (add_fact_passage p) (λ f. refl));
  tidy = classified.tidy;
}
