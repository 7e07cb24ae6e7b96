-- ===== src/Memory/Built.antt =====
-- The builder for raw OpenIE payloads: it raises nothing, keeps the memory sound, and makes a
-- passage for every document, also for one with no usable triple.
use exeio_memgraphrag.Base.{
  ℕ, negsuc, List, [], ◌∷◌, ◌≡◌, refl, sym, ◌∙◌, some, Result, ok, ◌>>=◌, arith, get_elem?-map,
  get_elem?, length, map, IsDistinct, AllNodes-map,
}
use exeio_memgraphrag.Base.Index.{IsIndex-same_keys, key_at, key_at-lt, key_at-modify, key_at-map}
use exeio_memgraphrag.Text.Defs.{Text}
use exeio_memgraphrag.Text.Canonical.{Unicode, Triple}
use exeio_memgraphrag.Memory.Nodes.{FactNode, Memory, Triple-discrete}
use exeio_memgraphrag.Memory.Create.{get_or_create_fact, get_or_create_passage}
use exeio_memgraphrag.Memory.Link.{add_passage_fact}
use exeio_memgraphrag.Memory.Edit.{count_fact}
use exeio_memgraphrag.Memory.OpenIe.{Python, triples_of}
use exeio_memgraphrag.Memory.Build.{
  RawDoc, count_facts, add_raw_triple, add_raw_triples, add_raw_doc, add_raw_docs,
  build_from_raw_openie_results,
}
use exeio_memgraphrag.Memory.Relation.{lists-map_other}
use exeio_memgraphrag.Memory.Invariant.{
  IsSound, IsClassified, AreListedOnce, fact_key, chunk_key, fact_position, passages_of_fact,
  belongs,
}
use exeio_memgraphrag.Memory.Created.{
  get_or_create_fact-IsSound, get_or_create_passage-IsSound, passage_layer-get_or_create_fact,
  key_at-get_or_create_passage, fact_layer-get_or_create_passage, get_or_create_fact-AreListedOnce,
  get_or_create_fact-IsClassified, get_or_create_passage-IsClassified,
}
use exeio_memgraphrag.Memory.Joined.{
  with_link, join_fact_passage_ok, with_link-IsSound, with_link-IsClassified,
  with_link-AreListedOnce,
}

-- The passages of `m` are where they were.
abbrev pub KeepsPassages : Memory → Memory → Type 0
KeepsPassages m m' =
    (i : ℕ) (c : Text)
    → key_at chunk_key m.passage_layer i ≡ some c
    → key_at chunk_key m'.passage_layer i ≡ some c

-- A step from `m` that does not raise, and what holds after it.
pub record Outcome (u : Unicode) (m : Memory) (r : Result Memory) : Type 0 where
  pub after : Memory
  pub returns : r ≡ ok after
  pub sound : IsSound u after
  pub classified : IsClassified m → IsClassified after
  pub once : AreListedOnce m → AreListedOnce after
  pub keeps : KeepsPassages m after

module _ {u : Unicode} where
  pub Outcome-ok : (m : Memory) → IsSound u m → Outcome u m (ok m)
  Outcome-ok m sound = record {
    after = m;
    returns = refl;
    sound = sound;
    classified = λ c. c;
    once = λ h. h;
    keeps = λ i c h. h;
  }

  pub Outcome-bind :
      {m : Memory} {r : Result Memory} (f : Memory → Result Memory)
      → (o : Outcome u m r) → Outcome u o.after (f o.after)
      → Outcome u m (r >>= f)
  Outcome-bind f o o' = record {
    after = o'.after;
    returns = rw o.returns o'.returns;
    sound = o'.sound;
    classified = λ c. o'.classified (o.classified c);
    once = λ h. o'.once (o.once h);
    keeps = λ i c h. o'.keeps i c (o.keeps i c h);
  }

  pub add_raw_triple-Outcome :
      (m : Memory) (p : ℕ) (c : Text) (t : Triple)
      → IsSound u m
      → key_at chunk_key m.passage_layer p ≡ some c
      → Outcome u m (add_raw_triple u p m t)
  unfolding add_raw_triple
  add_raw_triple-Outcome m p c t sound at =
      let (m', i) = get_or_create_fact u m t (negsuc 0) in
      let (sound', found) = get_or_create_fact-IsSound u sound t (negsuc 0) in
      let same = passage_layer-get_or_create_fact u m t (negsuc 0) in
      let fact = key_at-lt (fact_key u) m'.fact_layer i _ found in
      let passage = key_at-lt chunk_key m'.passage_layer p c (rw same at) in
      record {
        after = with_link m' i p;
        returns = join_fact_passage_ok m' i p fact passage;
        sound = with_link-IsSound m' i p fact passage u sound';
        classified =
            λ cl. with_link-IsClassified m' i p (get_or_create_fact-IsClassified u m cl t 0);
        once = λ h.
            with_link-AreListedOnce m' i p (get_or_create_fact-AreListedOnce u m t (negsuc 0) h);
        keeps = λ j d h.
            key_at-modify chunk_key p j (add_passage_fact i) m'.passage_layer (λ x. refl)
            ∙ rw same h;
      }

  pub add_raw_triples-Outcome :
      (m : Memory) (p : ℕ) (c : Text) (ts : List Triple)
      → IsSound u m
      → key_at chunk_key m.passage_layer p ≡ some c
      → Outcome u m (add_raw_triples u p m ts)
  unfolding add_raw_triples
  add_raw_triples-Outcome m p c [] sound at = Outcome-ok m sound
  add_raw_triples-Outcome m p c (t ∷ ts) sound at =
      let o = add_raw_triple-Outcome m p c t sound at in
      Outcome-bind _ o (add_raw_triples-Outcome o.after p c ts o.sound (o.keeps p c at))

-- Some passage has the chunk's identifier.
abbrev pub HasPassage : Memory → Text → Type 0
HasPassage m c = (i : ℕ) × (key_at chunk_key m.passage_layer i ≡ some c)

abbrev pub HasPassages : Memory → List RawDoc → Type 0
HasPassages m [] = Unit
HasPassages m (doc ∷ docs) = HasPassage m doc.idx × HasPassages m docs

module _ (py : Python) where
  open py use {unicode}

  pub add_raw_doc-Outcome :
      (m : Memory) (doc : RawDoc)
      → IsSound unicode m
      → (o : Outcome unicode m (add_raw_doc py m doc)) × HasPassage o.after doc.idx
  unfolding add_raw_doc
  add_raw_doc-Outcome m doc sound =
      let (m', p) = get_or_create_passage m doc.idx doc.passage in
      let (sound', at) = get_or_create_passage-IsSound unicode sound doc.idx doc.passage in
      let o =
        add_raw_triples-Outcome m' p doc.idx (triples_of py doc.extracted_triples) sound' at in
      (
        record {
          after = o.after;
          returns = o.returns;
          sound = o.sound;
          classified = λ cl.
              o.classified (get_or_create_passage-IsClassified unicode m cl doc.idx doc.passage);
          once = λ h. o.once (rw fact_layer-get_or_create_passage h);
          keeps = λ i c h. o.keeps i c (key_at-get_or_create_passage m doc.idx doc.passage i c h);
        },
        (p, o.keeps p doc.idx at),
      )

  pub add_raw_docs-Outcome :
      (m : Memory) (docs : List RawDoc)
      → IsSound unicode m
      → (o : Outcome unicode m (add_raw_docs py m docs)) × HasPassages o.after docs
  unfolding add_raw_docs Outcome-bind
  add_raw_docs-Outcome m [] sound = (Outcome-ok m sound, tt)
  add_raw_docs-Outcome m (doc ∷ docs) sound =
      let (o, (i, there)) = add_raw_doc-Outcome m doc sound in
      let (o', rest) = add_raw_docs-Outcome o.after docs o.sound in
      (Outcome-bind (λ m'. add_raw_docs py m' docs) o o', ((i, o'.keeps i doc.idx there), rest))

pub belongs-map :
    (facts : List FactNode) (i s : ℕ) (g : FactNode → FactNode)
    → ((f : FactNode) → (g f).schema_idx ≡ f.schema_idx)
    → belongs (map g facts) i s ≡ belongs facts i s
unfolding belongs
belongs-map facts i s g same = grind (arith, get_elem?-map g i facts, same)

-- Counting the passages of the facts changes the frequencies only.
pub count_facts-IsSound : (u : Unicode) (m : Memory) → IsSound u m → IsSound u (count_facts m)
unfolding count_facts
count_facts-IsSound u m sound = record {
  schemas_keyed = sound.schemas_keyed;
  facts_keyed =
      IsIndex-same_keys Triple-discrete (fact_key u) sound.facts_keyed
        (λ i. key_at-map (fact_key u) count_fact m.fact_layer i (λ x. refl));
  passages_keyed = sound.passages_keyed;
  schemas_placed = sound.schemas_placed;
  facts_placed = λ i j h.
      sound.facts_placed i j
        (sym (key_at-map fact_position count_fact m.fact_layer i (λ x. refl)) ∙ h);
  passages_placed = sound.passages_placed;
  joined = λ i p.
      lists-map_other passages_of_fact m.fact_layer i p count_fact (λ x. refl) ∙ sound.joined i p;
}

pub count_facts-IsClassified : (m : Memory) → IsClassified m → IsClassified (count_facts m)
unfolding count_facts
count_facts-IsClassified m cl = record {
  listed = λ s i. cl.listed s i ∙ sym (belongs-map m.fact_layer i s count_fact (λ f. refl));
  tidy = cl.tidy;
}

pub count_facts-AreListedOnce : (m : Memory) → AreListedOnce m → AreListedOnce (count_facts m)
unfolding count_facts
count_facts-AreListedOnce m once =
    AllNodes-map (λ (f : FactNode). IsDistinct f.passage_indices) count_fact m.fact_layer once

-- Every fact's frequency is the number of the passages that it stands in.
abbrev pub AreCounted : Memory → Type 0
AreCounted m =
    (i : ℕ) (f : FactNode)
    → get_elem? m.fact_layer i ≡ some f
    → f.frequency ≡ length f.passage_indices

pub count_facts-AreCounted : (m : Memory) → AreCounted (count_facts m)
unfolding count_facts
count_facts-AreCounted m i f h = ground (arith, get_elem?-map count_fact i m.fact_layer)

-- From a memory that is sound, whose schemas list exactly the facts that belong to them, and in
-- which no fact lists a passage twice, the builder for raw payloads raises nothing and leaves such
-- a memory, in which the passages that were there keep their positions, every document has a
-- passage, whatever its triples, and every fact has as its frequency the length of its list of
-- passages. As the list has no passage twice, that is the number of distinct passages that the fact
-- stands in, however often one document repeats it.
pub build_from_raw_openie_results-IsSound :
    (py : Python) (m : Memory) (docs : List RawDoc)
    → IsSound py.unicode m
    → IsClassified m
    → AreListedOnce m
    → (m' : Memory) × (build_from_raw_openie_results py m docs ≡ ok m')
      × IsSound py.unicode m'
      × IsClassified m'
      × KeepsPassages m m'
      × HasPassages m' docs
      × AreListedOnce m'
      × AreCounted m'
unfolding build_from_raw_openie_results
build_from_raw_openie_results-IsSound py m docs sound classified once =
    let (o, there) = add_raw_docs-Outcome py m docs sound in
    (
      count_facts o.after,
      rw o.returns,
      count_facts-IsSound py.unicode o.after o.sound,
      count_facts-IsClassified o.after (o.classified classified),
      unfold count_facts in o.keeps,
      unfold count_facts in there,
      count_facts-AreListedOnce o.after (o.once once),
      count_facts-AreCounted o.after,
    )
