-- ===== src/Memory/Build.antt =====
-- `build_from_raw_openie_results` and `build_from_openie_results`.
use exeio_memgraphrag.Base.{
  ℕ, pos, negsuc, List, [], ◌∷◌, Option, some, map, Result, ok, update, ◌>>=◌, add_index,
}
use exeio_memgraphrag.Text.Defs.{Text}
use exeio_memgraphrag.Text.Canonical.{Unicode, Triple}
use exeio_memgraphrag.Memory.Nodes.{Memory, empty_memory}
use exeio_memgraphrag.Memory.Create.{
  get_or_create_schema, get_or_create_fact, get_or_create_passage,
}
use exeio_memgraphrag.Memory.Link.{
  add_schema_fact, count_schema, add_fact_passage, add_passage_fact,
}
use exeio_memgraphrag.Memory.Edit.{count_fact}
use exeio_memgraphrag.Memory.OpenIe.{Value, Python, triples_of}

-- A document of the raw payload; the defaults of `doc.get` are filled in.
pub record RawDoc : Type 0 where
  pub idx : Text
  pub passage : Text
  pub extracted_triples : Value

-- A document with its map from triples to ontologies, in order: for each key what
-- `ast.literal_eval` reads it as, if that is a tuple of three texts, and the list beside it. (Keys
-- whose tuple holds other objects than texts are not modelled.)
pub record OntologyDoc : Type 0 where
  pub idx : Text
  pub passage : Text
  pub extracted_triple_ontology : List (Option Triple × List Text)

-- a fact and a passage that name each other
unfoldable pub join_fact_passage : Memory → ℕ → ℕ → Result Memory
unfolding add_index
join_fact_passage m fact_idx passage_idx = do
  facts ← update m.fact_layer fact_idx (add_fact_passage passage_idx)
  passages ← update m.passage_layer passage_idx (add_passage_fact fact_idx)
  ok (record m { fact_layer = facts; passage_layer = passages })

-- the links of a fact, a schema and a passage
unfoldable pub file_fact : Memory → ℕ → ℕ → ℕ → Result Memory
unfolding join_fact_passage
file_fact m schema_idx fact_idx passage_idx = do
  schemas ← update m.schema_layer schema_idx (add_schema_fact fact_idx)
  join_fact_passage (record m { schema_layer = schemas }) fact_idx passage_idx

unfoldable pub count_facts : Memory → Memory
count_facts m = record m { fact_layer = map count_fact m.fact_layer }

module _ (u : Unicode) where
  unfoldable pub add_raw_triple : ℕ → Memory → Triple → Result Memory
  unfolding get_or_create_fact join_fact_passage
  add_raw_triple passage_idx m triple =
      let (m', fact_idx) = get_or_create_fact u m triple (negsuc 0) in
      join_fact_passage m' fact_idx passage_idx

  unfoldable pub add_raw_triples : ℕ → Memory → List Triple → Result Memory
  unfolding add_raw_triple
  add_raw_triples passage_idx m [] = ok m
  add_raw_triples passage_idx m (triple ∷ triples) = do
    m' ← add_raw_triple passage_idx m triple
    add_raw_triples passage_idx m' triples

  -- one entry of the ontology map; `continue` where it is malformed
  unfoldable pub add_ontology_entry : ℕ → Memory → Option Triple × List Text → Result Memory
  unfolding get_or_create_schema get_or_create_fact file_fact
  add_ontology_entry passage_idx m (some triple, a ∷ b ∷ c ∷ []) =
      let (m₁, schema_idx) = get_or_create_schema u m (a, b, c) in
      let (m₂, fact_idx) = get_or_create_fact u m₁ triple (pos schema_idx) in
      file_fact m₂ schema_idx fact_idx passage_idx
  add_ontology_entry passage_idx m _ = ok m

  unfoldable pub add_ontology_entries :
      ℕ → Memory → List (Option Triple × List Text) → Result Memory
  unfolding add_ontology_entry
  add_ontology_entries passage_idx m [] = ok m
  add_ontology_entries passage_idx m (entry ∷ entries) = do
    m' ← add_ontology_entry passage_idx m entry
    add_ontology_entries passage_idx m' entries

  -- a document with no ontology is passed over, its passage too
  unfoldable pub add_ontology_map :
      Memory → Text → Text → List (Option Triple × List Text) → Result Memory
  unfolding get_or_create_passage add_ontology_entries
  add_ontology_map m chunk_id passage_text [] = ok m
  add_ontology_map m chunk_id passage_text (entry ∷ entries) =
      let (m', passage_idx) = get_or_create_passage m chunk_id passage_text in
      add_ontology_entries passage_idx m' (entry ∷ entries)

  unfoldable pub add_ontology_doc : Memory → OntologyDoc → Result Memory
  unfolding add_ontology_map
  add_ontology_doc m doc = add_ontology_map m doc.idx doc.passage doc.extracted_triple_ontology

  unfoldable pub add_ontology_docs : Memory → List OntologyDoc → Result Memory
  unfolding add_ontology_doc
  add_ontology_docs m [] = ok m
  add_ontology_docs m (doc ∷ docs) = do m' ← add_ontology_doc m doc; add_ontology_docs m' docs

  unfoldable pub build_from_openie_results : Memory → List OntologyDoc → Result Memory
  unfolding add_ontology_docs count_facts
  build_from_openie_results m docs = do
    m' ← add_ontology_docs m docs
    ok (count_facts (record m' { schema_layer = map count_schema m'.schema_layer }))

module _ (py : Python) where
  unfoldable pub add_raw_doc : Memory → RawDoc → Result Memory
  unfolding get_or_create_passage add_raw_triples triples_of
  add_raw_doc m doc =
      let (m', passage_idx) = get_or_create_passage m doc.idx doc.passage in
      add_raw_triples py.unicode passage_idx m' (triples_of py doc.extracted_triples)

  unfoldable pub add_raw_docs : Memory → List RawDoc → Result Memory
  unfolding add_raw_doc
  add_raw_docs m [] = ok m
  add_raw_docs m (doc ∷ docs) = do m' ← add_raw_doc m doc; add_raw_docs m' docs

  unfoldable pub build_from_raw_openie_results : Memory → List RawDoc → Result Memory
  unfolding add_raw_docs count_facts
  build_from_raw_openie_results m docs = do m' ← add_raw_docs m docs; ok (count_facts m')

  unfoldable pub build_two_layer_memory_from_raw_openie : List RawDoc → Result Memory
  unfolding build_from_raw_openie_results
  build_two_layer_memory_from_raw_openie docs = build_from_raw_openie_results empty_memory docs
