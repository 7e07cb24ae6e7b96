-- ===== src/Memory/Nodes.antt =====
-- The nodes of the layers, and the object that holds them. The positions that the program stores
-- are natural numbers, except for a fact's `schema_idx`, where -1 stands for "none".
use exeio_memgraphrag.Base.{ℕ, ℤ, List, [], Option}
use exeio_memgraphrag.Text.Defs.{Text, Text-discrete}
use exeio_memgraphrag.Text.Canonical.{Triple}

-- A float of an embedding, as its bit pattern: the memory only stores it.
abbrev pub Float : Type 0
Float = ℕ

pub record SchemaNode : Type 0 where
  pub idx : ℕ
  pub content : Triple
  pub frequency : ℕ
  pub embedding : Option (List Float)
  pub fact_indices : List ℕ

pub record FactNode : Type 0 where
  pub idx : ℕ
  pub content : Triple
  pub frequency : ℕ
  pub embedding : Option (List Float)
  pub schema_idx : ℤ
  pub passage_indices : List ℕ

pub record PassageNode : Type 0 where
  pub idx : ℕ
  pub chunk_id : Text
  pub content : Text
  pub embedding : Option (List Float)
  pub fact_indices : List ℕ
  pub modality : Text

-- `ThreeLayerMemory`: the layers, and the dictionaries that find a node by its key.
pub record Memory : Type 0 where
  pub schema_layer : List SchemaNode
  pub fact_layer : List FactNode
  pub passage_layer : List PassageNode
  pub schema_to_idx : List (Triple × ℕ)
  pub fact_to_idx : List (Triple × ℕ)
  pub chunk_id_to_idx : List (Text × ℕ)

-- `__init__`
abbrev pub empty_memory : Memory
empty_memory = record {
  schema_layer = [];
  fact_layer = [];
  passage_layer = [];
  schema_to_idx = [];
  fact_to_idx = [];
  chunk_id_to_idx = [];
}

unfoldable pub Triple-discrete : Discrete Triple
unfolding Text-discrete
Triple-discrete = hlevel Text-discrete
