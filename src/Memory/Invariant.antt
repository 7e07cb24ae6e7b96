-- ===== src/Memory/Invariant.antt =====
-- What holds of a memory between two calls of its methods.
use exeio_memgraphrag.Base.{
  ℕ, ℤ, pos, negsuc, List, Bool, false, ◌≡◌, ◌==◌, none, some, get_elem?, refl, length, IsDistinct,
  AllNodes,
}
use exeio_memgraphrag.Base.Index.{IsIndex, IsIndex-nil, IsPlaced, key_at}
use exeio_memgraphrag.Text.Defs.{Text, Text-discrete}
use exeio_memgraphrag.Text.Canonical.{Unicode, Triple, canonical_triple}
use exeio_memgraphrag.Memory.Nodes.{
  SchemaNode, FactNode, PassageNode, Memory, empty_memory, Triple-discrete,
}
use exeio_memgraphrag.Memory.Relation.{lists}

abbrev pub schema_key : Unicode → SchemaNode → Triple
schema_key u n = canonical_triple u n.content

abbrev pub fact_key : Unicode → FactNode → Triple
fact_key u n = canonical_triple u n.content

abbrev pub chunk_key : PassageNode → Text
chunk_key n = n.chunk_id

abbrev pub schema_position : SchemaNode → ℕ
schema_position n = n.idx

abbrev pub fact_position : FactNode → ℕ
fact_position n = n.idx

abbrev pub passage_position : PassageNode → ℕ
passage_position n = n.idx

abbrev pub facts_of_schema : SchemaNode → List ℕ
facts_of_schema n = n.fact_indices

abbrev pub passages_of_fact : FactNode → List ℕ
passages_of_fact n = n.passage_indices

abbrev pub facts_of_passage : PassageNode → List ℕ
facts_of_passage n = n.fact_indices

-- A fact and a passage name each other or neither names the other; so both are there.
abbrev pub IsJoined : List FactNode → List PassageNode → Type 0
IsJoined facts passages =
    (i p : ℕ) → lists passages_of_fact facts i p ≡ lists facts_of_passage passages p i

-- The dictionaries find the nodes by key, the nodes hold their positions, and facts and passages
-- agree on who names whom.
pub record IsSound (u : Unicode) (m : Memory) : Type 0 where
  pub schemas_keyed : IsIndex Triple-discrete (schema_key u) m.schema_to_idx m.schema_layer
  pub facts_keyed : IsIndex Triple-discrete (fact_key u) m.fact_to_idx m.fact_layer
  pub passages_keyed : IsIndex Text-discrete chunk_key m.chunk_id_to_idx m.passage_layer
  pub schemas_placed : IsPlaced schema_position m.schema_layer
  pub facts_placed : IsPlaced fact_position m.fact_layer
  pub passages_placed : IsPlaced passage_position m.passage_layer
  pub joined : IsJoined m.fact_layer m.passage_layer

abbrev pub is_position : ℕ → ℤ → Bool
is_position s (pos t) = t == s
is_position s (negsuc _) = false

-- `fact_layer[i].schema_idx == s`
unfoldable pub belongs : List FactNode → ℕ → ℕ → Bool
belongs facts i s = elim (get_elem? facts i) [ none ↦ false | some f ↦ is_position s f.schema_idx ]

-- A schema's facts are listed once, and its frequency is their number.
pub record IsTidy (n : SchemaNode) : Type 0 where
  pub distinct : IsDistinct n.fact_indices
  pub counted : n.frequency ≡ length n.fact_indices

-- A schema lists exactly the facts that belong to it; so a fact is in at most one schema.
pub record IsClassified (m : Memory) : Type 0 where
  pub listed : (s i : ℕ) → lists facts_of_schema m.schema_layer s i ≡ belongs m.fact_layer i s
  pub tidy : AllNodes IsTidy m.schema_layer

-- No fact lists a passage twice.
abbrev pub AreListedOnce : Memory → Type 0
AreListedOnce m = AllNodes (λ (f : FactNode). IsDistinct f.passage_indices) m.fact_layer

pub empty_memory-IsSound : (u : Unicode) → IsSound u empty_memory
unfolding key_at lists
empty_memory-IsSound u = record {
  schemas_keyed = IsIndex-nil Triple-discrete (schema_key u);
  facts_keyed = IsIndex-nil Triple-discrete (fact_key u);
  passages_keyed = IsIndex-nil Text-discrete chunk_key;
  schemas_placed = λ i j h. cc;
  facts_placed = λ i j h. cc;
  passages_placed = λ i j h. cc;
  joined = λ i p. refl;
}

pub empty_memory-IsClassified : IsClassified empty_memory
unfolding lists belongs
empty_memory-IsClassified = record { listed = λ s i. refl; tidy = λ i x h. cc }
