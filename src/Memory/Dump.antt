-- ===== src/Memory/Dump.antt =====
-- `to_dict` and `from_dict`. An item's `content` is a list of three texts, and the keys that
-- `from_dict` reads with no default are there; a key with a default may be missing.
use exeio_memgraphrag.Base.{
  ℕ, ℤ, negsuc, List, [], ◌∷◌, ◌++◌, Option, none, some, length, map, foldl,
}
use exeio_memgraphrag.Base.Dict.{put}
use exeio_memgraphrag.Text.Defs.{Text, Text-discrete, codes}
use exeio_memgraphrag.Text.Canonical.{Unicode, Triple, canonical_triple}
use exeio_memgraphrag.Memory.Nodes.{
  Float, SchemaNode, FactNode, PassageNode, Memory, empty_memory, Triple-discrete,
}

pub record SchemaItem : Type 0 where
  pub idx : ℕ
  pub content : Triple
  pub frequency : Option ℕ
  pub embedding : Option (List Float)
  pub fact_indices : Option (List ℕ)

pub record FactItem : Type 0 where
  pub idx : ℕ
  pub content : Triple
  pub frequency : Option ℕ
  pub embedding : Option (List Float)
  pub schema_idx : Option ℤ
  pub passage_indices : Option (List ℕ)

pub record PassageItem : Type 0 where
  pub idx : ℕ
  pub chunk_id : Text
  pub content : Text
  pub embedding : Option (List Float)
  pub fact_indices : Option (List ℕ)
  pub modality : Option Text

pub record MemoryStats : Type 0 where
  pub num_schemas : ℕ
  pub num_facts : ℕ
  pub num_passages : ℕ

pub record MemoryDict : Type 0 where
  pub schema_layer : List SchemaItem
  pub fact_layer : List FactItem
  pub passage_layer : List PassageItem
  pub stats : MemoryStats

unfoldable pub schema_to_item : SchemaNode → SchemaItem
schema_to_item n = record {
  idx = n.idx;
  content = n.content;
  frequency = some n.frequency;
  embedding = n.embedding;
  fact_indices = some n.fact_indices;
}

unfoldable pub fact_to_item : FactNode → FactItem
fact_to_item n = record {
  idx = n.idx;
  content = n.content;
  frequency = some n.frequency;
  embedding = n.embedding;
  schema_idx = some n.schema_idx;
  passage_indices = some n.passage_indices;
}

unfoldable pub passage_to_item : PassageNode → PassageItem
passage_to_item n = record {
  idx = n.idx;
  chunk_id = n.chunk_id;
  content = n.content;
  embedding = n.embedding;
  fact_indices = some n.fact_indices;
  modality = some n.modality;
}

unfoldable pub to_dict : Memory → MemoryDict
unfolding schema_to_item fact_to_item passage_to_item
to_dict m = record {
  schema_layer = map schema_to_item m.schema_layer;
  fact_layer = map fact_to_item m.fact_layer;
  passage_layer = map passage_to_item m.passage_layer;
  stats = record {
    num_schemas = length m.schema_layer;
    num_facts = length m.fact_layer;
    num_passages = length m.passage_layer;
  };
}

-- `item.get(key, default)`
abbrev pub or_default {ℓ} : {A : Type ℓ} → Option A → A → A
or_default none d = d
or_default (some a) d = a

unfoldable pub schema_of_item : SchemaItem → SchemaNode
schema_of_item item = record {
  idx = item.idx;
  content = item.content;
  frequency = or_default item.frequency 0;
  embedding = item.embedding;
  fact_indices = or_default item.fact_indices [];
}

unfoldable pub fact_of_item : FactItem → FactNode
fact_of_item item =
    let passage_indices = or_default item.passage_indices [] in
    record {
      idx = item.idx;
      content = item.content;
      frequency = or_default item.frequency (length passage_indices);
      embedding = item.embedding;
      schema_idx = or_default item.schema_idx (negsuc 0);
      passage_indices = passage_indices;
    }

unfoldable pub passage_of_item : PassageItem → PassageNode
passage_of_item item = record {
  idx = item.idx;
  chunk_id = item.chunk_id;
  content = item.content;
  embedding = item.embedding;
  fact_indices = or_default item.fact_indices [];
  modality = or_default item.modality (codes "text");
}

module _ (u : Unicode) where
  abbrev pub restore_schema : Memory → SchemaItem → Memory
  restore_schema m item =
      let node = schema_of_item item in
      record m {
        schema_layer = m.schema_layer ++ node ∷ [];
        schema_to_idx =
            put Triple-discrete (canonical_triple u node.content) node.idx m.schema_to_idx;
      }

  abbrev pub restore_fact : Memory → FactItem → Memory
  restore_fact m item =
      let node = fact_of_item item in
      record m {
        fact_layer = m.fact_layer ++ node ∷ [];
        fact_to_idx = put Triple-discrete (canonical_triple u node.content) node.idx m.fact_to_idx;
      }

  abbrev pub restore_passage : Memory → PassageItem → Memory
  restore_passage m item =
      let node = passage_of_item item in
      record m {
        passage_layer = m.passage_layer ++ node ∷ [];
        chunk_id_to_idx = put Text-discrete node.chunk_id node.idx m.chunk_id_to_idx;
      }

  unfoldable pub from_dict : MemoryDict → Memory
  unfolding schema_of_item fact_of_item passage_of_item
  from_dict d =
      foldl restore_passage
        (foldl restore_fact (foldl restore_schema empty_memory d.schema_layer) d.fact_layer)
        d.passage_layer
