-- ===== src/Memory/Tests.antt =====
-- A small corpus, the memory that the builder makes of it, and the theorems at that memory.
use Prim.Native.String.{String}
use exeio_memgraphrag.Base.{
  ℕ, pos, negsuc, List, [], ◌∷◌, none, some, ◌≡◌, refl, sym, ◌∙◌, subst, true, ok, ok-injective,
  arith, length, delete, ◌==◌, ℕ_discrete, AllNodes,
}
use exeio_memgraphrag.Base.Dict.{get, put}
use exeio_memgraphrag.Base.Index.{key_at}
use exeio_memgraphrag.Text.Defs.{Text-discrete, codes, lstrip, rstrip}
use exeio_memgraphrag.Text.Canonical.{Triple, canonical_triple}
use exeio_memgraphrag.Text.Canonical.Tests.{ascii}
use exeio_memgraphrag.Memory.Nodes.{
  SchemaNode, FactNode, PassageNode, Memory, empty_memory, Triple-discrete,
}
use exeio_memgraphrag.Memory.OpenIe.{Value, null, str, list, dict, nil, cons, end, field, Python}
use exeio_memgraphrag.Memory.Build.{
  RawDoc, OntologyDoc, build_from_raw_openie_results, build_from_openie_results,
}
use exeio_memgraphrag.Memory.Invariant.{
  IsSound, IsClassified, AreListedOnce, schema_key, fact_key, empty_memory-IsSound,
  empty_memory-IsClassified, belongs,
}
use exeio_memgraphrag.Memory.Dump.{to_dict, from_dict}
use exeio_memgraphrag.Memory.Create.{new_schema}
use exeio_memgraphrag.Memory.Edit.{add_fact_with_passages, replace_fact, other_fact, remove_fact}
use exeio_memgraphrag.Memory.Added.{add_fact_with_passages-new_fact}
use exeio_memgraphrag.Memory.Renamed.{replace_fact-IsSound}
use exeio_memgraphrag.Memory.Restored.{from_dict-to_dict}
use exeio_memgraphrag.Memory.Relation.{lists}
use exeio_memgraphrag.Memory.Create.{get_or_create_fact}
use exeio_memgraphrag.Memory.Link.{link_fact_to_schema}
use exeio_memgraphrag.Memory.Linked.{link_fact_to_schema-IsClassified}
use exeio_memgraphrag.Memory.Removed.{contents_of, remove_fact-IsSound}
use exeio_memgraphrag.Memory.Created.{get_or_create_fact_again}
use exeio_memgraphrag.Memory.Filed.{IsFiled, build_from_openie_results-IsSound}
use exeio_memgraphrag.Memory.Built.{
  KeepsPassages, HasPassages, AreCounted, build_from_raw_openie_results-IsSound,
}

abbrev pub py : Python
py = record {
  unicode = ascii;
  str_of = elim [ null ↦ codes "None" | str t ↦ t | _ ↦ codes "?" ];
  literal_eval = λ t. none;
  str_of_str = λ t. refl;
}

abbrev triple_value : String → String → String → Value
triple_value h r t = list (cons (str (codes h)) (cons (str (codes r)) (cons (str (codes t)) nil)))

-- Two documents with one fact in two spellings, and a document with no usable triple.
abbrev pub docs : List RawDoc
docs =
    record {
      idx = codes "a";
      passage = codes "x";
      extracted_triples = list (cons (triple_value "P" "r" "Q") nil);
    }
    ∷ record {
      idx = codes "b";
      passage = codes "y";
      extracted_triples = list (
          cons (dict (field (codes "processed_triple") (triple_value "p" " R" "q") end))
            (cons (triple_value "S" "r" "T") nil));
    }
    ∷ record { idx = codes "c"; passage = codes "z"; extracted_triples = null }
    ∷ []

program : Unit {0}
unfolding build_from_raw_openie_results Triple-discrete Text-discrete ℕ_discrete lstrip rstrip get
    put canonical_triple
program = tt

abbrev key : String → String → String → Triple
key h r t = (codes h, codes r, codes t)

abbrev passage_node : ℕ → String → String → List ℕ → PassageNode
passage_node idx chunk_id content facts = record {
  idx = idx;
  chunk_id = codes chunk_id;
  content = codes content;
  embedding = none;
  fact_indices = facts;
  modality = codes "text";
}

abbrev fact_node : ℕ → Triple → List ℕ → FactNode
fact_node idx content passages = record {
  idx = idx;
  content = content;
  frequency = length passages;
  embedding = none;
  schema_idx = negsuc 0;
  passage_indices = passages;
}

abbrev pub sample : Memory
sample = record {
  schema_layer = [];
  fact_layer =
      fact_node 0 (key "P" "r" "Q") (0 ∷ 1 ∷ []) ∷ fact_node 1 (key "S" "r" "T") (1 ∷ []) ∷ [];
  passage_layer =
      passage_node 0 "a" "x" (0 ∷ [])
      ∷ passage_node 1 "b" "y" (0 ∷ 1 ∷ [])
      ∷ passage_node 2 "c" "z" []
      ∷ [];
  schema_to_idx = [];
  fact_to_idx = (key "p" "r" "q", 0) ∷ (key "s" "r" "t", 1) ∷ [];
  chunk_id_to_idx = (codes "a", 0) ∷ (codes "b", 1) ∷ (codes "c", 2) ∷ [];
}

build_docs : build_from_raw_openie_results py empty_memory docs ≡ ok sample
unfolding program
build_docs = refl

build_from_raw_openie_results-IsSound_example :
    (m' : Memory) × (build_from_raw_openie_results py empty_memory docs ≡ ok m')
    × IsSound ascii m'
    × IsClassified m'
    × KeepsPassages empty_memory m'
    × HasPassages m' docs
    × AreListedOnce m'
    × AreCounted m'
build_from_raw_openie_results-IsSound_example =
    build_from_raw_openie_results-IsSound py empty_memory docs (empty_memory-IsSound ascii)
      empty_memory-IsClassified (λ i f at. cc)

-- What the builder returns is the sample.
sample_of :
    (P : Memory → Type 0) (m : Memory)
    → build_from_raw_openie_results py empty_memory docs ≡ ok m
    → P m
    → P sample
sample_of P m e p = subst P (ok-injective (sym e ∙ build_docs)) p

pub sample-IsSound : IsSound ascii sample
sample-IsSound =
    let built =
      build_from_raw_openie_results-IsSound py empty_memory docs (empty_memory-IsSound ascii)
        empty_memory-IsClassified (λ i f. cc) in
    sample_of (IsSound ascii) built.0 built.1 built.2

pub sample-IsClassified : IsClassified sample
sample-IsClassified =
    let built =
      build_from_raw_openie_results-IsSound py empty_memory docs (empty_memory-IsSound ascii)
        empty_memory-IsClassified (λ i f. cc) in
    sample_of IsClassified built.0 built.1 built.3

get_or_create_fact_again_example :
    get_or_create_fact ascii
      (get_or_create_fact ascii sample (key "N" "r" "M") (negsuc 0)).0
      (key " n" "R" "m ")
      (negsuc 0)
    ≡ get_or_create_fact ascii sample (key "N" "r" "M") (negsuc 0)
unfolding program
get_or_create_fact_again_example =
    get_or_create_fact_again ascii {m = sample} sample-IsSound (key "N" "r" "M") (key " n" "R" "m ")
      (negsuc 0) (negsuc 0) refl

link_fact_to_schema-IsClassified_example :
    (m' : Memory) × (s : ℕ) × (link_fact_to_schema ascii sample 1 (key "A" "r" "B") ≡ ok (m', s))
    × IsSound ascii m'
    × IsClassified m'
    × (key_at (schema_key ascii) m'.schema_layer s
        ≡ some (canonical_triple ascii (key "A" "r" "B")))
    × ((t : ℕ) → belongs m'.fact_layer 1 t ≡ s == t)
link_fact_to_schema-IsClassified_example =
    link_fact_to_schema-IsClassified ascii sample 1 (key "A" "r" "B") (omega arith) sample-IsSound
      sample-IsClassified

remove_fact-IsSound_example :
    let (m', done) = remove_fact ascii sample 0 in
    (done ≡ true)
    × IsSound ascii m'
    × IsClassified m'
    × AreCounted m'
    × (contents_of m'.fact_layer ≡ delete 0 (contents_of sample.fact_layer))
remove_fact-IsSound_example =
    remove_fact-IsSound ascii sample 0 (omega arith) sample-IsSound sample-IsClassified

-- A triple under two ontologies, and an entry that is passed over.
abbrev ontology_docs : List OntologyDoc
ontology_docs =
    record {
      idx = codes "a";
      passage = codes "x";
      extracted_triple_ontology =
          (some (key "P" "r" "Q"), codes "A" ∷ codes "r" ∷ codes "B" ∷ [])
          ∷ (some (key "p" "R" "q"), codes "C" ∷ codes "r" ∷ codes "D" ∷ [])
          ∷ (none, [])
          ∷ [];
    }
    ∷ []

empty_memory-IsFiled : IsFiled empty_memory
unfolding belongs lists
empty_memory-IsFiled i s h = cc

build_from_openie_results-IsSound_example :
    (m' : Memory) × (build_from_openie_results ascii empty_memory ontology_docs ≡ ok m')
    × IsSound ascii m'
    × IsFiled m'
    × AreCounted m'
    × AllNodes (λ (n : SchemaNode). n.frequency ≡ length n.fact_indices) m'.schema_layer
build_from_openie_results-IsSound_example =
    build_from_openie_results-IsSound ascii empty_memory ontology_docs (empty_memory-IsSound ascii)
      empty_memory-IsFiled

from_dict-to_dict_example :
    let m' = from_dict ascii (to_dict sample) in
    (m'.schema_layer ≡ sample.schema_layer)
    × (m'.fact_layer ≡ sample.fact_layer)
    × (m'.passage_layer ≡ sample.passage_layer)
    × IsSound ascii m'
from_dict-to_dict_example = from_dict-to_dict ascii sample sample-IsSound

abbrev sample_with_schema : Memory
sample_with_schema = record sample {
  schema_layer = new_schema 0 (key "A" "r" "B") ∷ [];
  schema_to_idx = (key "a" "r" "b", 0) ∷ [];
}

add_fact_with_passages-new_fact_example :
    (m' : Memory) × (add_fact_with_passages ascii sample_with_schema
        (key "U" "r" "V")
        (0 ∷ [])
        (pos 0)
      ≡ ok (m', length sample_with_schema.fact_layer))
    × (belongs m'.fact_layer (length sample_with_schema.fact_layer) 0 ≡ true)
    × (m'.schema_layer ≡ sample_with_schema.schema_layer)
unfolding program
add_fact_with_passages-new_fact_example =
    add_fact_with_passages-new_fact ascii sample_with_schema (key "U" "r" "V") (0 ∷ []) 0 refl

-- Another spelling of the fact's own key.
replace_fact-IsSound_example :
    (m' : Memory) × (replace_fact ascii sample 0 (key "p" "R" "q ") ≡ ok (m', pos 0))
    × IsSound ascii m'
    × IsClassified m'
    × (key_at (fact_key ascii) m'.fact_layer 0 ≡ some (canonical_triple ascii (key "p" "R" "q ")))
unfolding program other_fact
replace_fact-IsSound_example =
    replace_fact-IsSound ascii sample 0 (key "p" "R" "q ") (omega arith) refl sample-IsSound
      sample-IsClassified
