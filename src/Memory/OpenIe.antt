-- ===== src/Memory/OpenIe.antt =====
-- The payloads of OpenIE, and `_triple_tuple_from_openie_item`. A Python value is one of the data
-- that JSON and `ast.literal_eval` give. `str` of a value that is no text, and `literal_eval`, are
-- Python's: parameters.
use exeio_memgraphrag.Base.{List, [], ◌∷◌, ◌≡◌, Option, none, some, ite}
use exeio_memgraphrag.Text.Defs.{Text, Text-discrete, strip, codes}
use exeio_memgraphrag.Text.Canonical.{Unicode, Triple}

mutual
  pub data Value : Type 0 where
    null : Value
    -- a number or a truth value, by its `str`
    scalar : Text → Value
    str : Text → Value
    list : Items → Value
    tuple : Items → Value
    dict : Fields → Value

  pub data Items : Type 0 where
    nil : Items
    cons : Value → Items → Items

  pub data Fields : Type 0 where
    end : Fields
    field : Text → Value → Fields → Fields

-- What the builders call of Python: `str(v)`, which is the text itself for a text, and
-- `ast.literal_eval`, where `none` is an exception.
pub record Python : Type 0 where
  pub unicode : Unicode
  pub str_of : Value → Text
  pub literal_eval : Text → Option Value
  pub str_of_str : (t : Text) → str_of (str t) ≡ t

-- `item.get(key)`, with null for a key that is missing
unfoldable pub get_field : Text → Fields → Value
get_field key end = null
get_field key (field k v fs) = ite (Text-discrete k key) v (get_field key fs)

abbrev pub or_else {ℓ} : {A : Type ℓ} → Option A → Option A → Option A
or_else (some a) other = some a
or_else none other = other

module _ (py : Python) where
  open py use {unicode, str_of, literal_eval}

  abbrev pub three_items : Items → Option Triple
  three_items (cons h (cons r (cons t nil))) = some (str_of h, str_of r, str_of t)
  three_items _ = none

  -- a list or tuple of length 3
  abbrev pub as_triple : Value → Option Triple
  as_triple (list xs) = three_items xs
  as_triple (tuple xs) = three_items xs
  as_triple _ = none

  -- the text under `triple_str`, read as a Python literal
  abbrev pub read_triple_str : Value → Option Triple
  read_triple_str (str ts) = elim (literal_eval (strip unicode.is_space ts)) [
    | none ↦ none
    | some v ↦ as_triple v
  ]
  read_triple_str _ = none

  unfoldable pub triple_tuple_from_openie_item : Value → Option Triple
  unfolding get_field
  triple_tuple_from_openie_item (dict fs) =
      or_else (as_triple (get_field (codes "processed_triple") fs)) (
        or_else (as_triple (get_field (codes "triple") fs)) (
          or_else (as_triple (get_field (codes "raw_triple") fs))
            (read_triple_str (get_field (codes "triple_str") fs))))
  triple_tuple_from_openie_item item = as_triple item

  -- the loop that collects `valid_triples`
  unfoldable pub valid_triples : Items → List Triple
  unfolding triple_tuple_from_openie_item
  valid_triples nil = []
  valid_triples (cons item items) =
      let rest = valid_triples items in
      elim (triple_tuple_from_openie_item item) [ none ↦ rest | some t ↦ t ∷ rest ]

  -- `extracted_triples`, where it is a list
  unfoldable pub triples_of : Value → List Triple
  unfolding valid_triples
  triples_of (list items) = valid_triples items
  triples_of _ = []
