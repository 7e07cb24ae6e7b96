-- ===== src/Text/Canonical.antt =====
-- The matching key of entity and relation labels (memgraphrag/utils/canonical.py). The tables of
-- Unicode (normal forms, combining marks, case folding, the class of white space) are those of
-- Python's `unicodedata`, `str` and `re`, which the module only calls: a parameter of the model.
pub mod Words
pub mod Keys
pub mod Tests
use mathlib.Core.List.{flat_map}
use exeio_memgraphrag.Base.{ℕ, List, [], ◌∷◌, Bool, true, false, ◌≡◌, ◌==◌, contains, if◌then◌else◌}
use exeio_memgraphrag.Text.Defs.{Text, strip}

-- What the module calls of Python's library. The one law: U+0020 is white space.
pub record Unicode : Type 0 where
  pub nfkc : Text → Text
  pub nfd : Text → Text
  pub combining : ℕ → Bool
  pub casefold : Text → Text
  pub is_space : ℕ → Bool
  pub space_is_space : is_space 32 ≡ true

-- `_FOLD`, the typographic characters
unfoldable pub fold_char : ℕ → Text
fold_char c =
    if contains (0x2010 ∷ 0x2011 ∷ 0x2012 ∷ 0x2013 ∷ 0x2014 ∷ 0x2015 ∷ 0x2212 ∷ []) c
    then b'-' ∷ []
    else if contains (0x2018 ∷ 0x2019 ∷ 0x201b ∷ 0x2032 ∷ b'`' ∷ []) c
    then 39 ∷ []
    else if contains (0x201c ∷ 0x201d ∷ 0x201f ∷ 0x2033 ∷ []) c
    then b'"' ∷ []
    else if contains (0xa0 ∷ 0x202f ∷ []) c
    then 32 ∷ []
    else if c == 0x2026
    then b'.' ∷ b'.' ∷ b'.' ∷ []
    else if c == 0x153
    then b'o' ∷ b'e' ∷ []
    else if c == 0x152
    then b'O' ∷ b'E' ∷ []
    else if c == 0xe6
    then b'a' ∷ b'e' ∷ []
    else if c == 0xc6
    then b'A' ∷ b'E' ∷ []
    else c ∷ []

-- `translate(_FOLD)`
unfoldable pub translate : Text → Text
unfolding flat_map fold_char
translate = flat_map fold_char

-- the characters for which `combining` is 0
unfoldable pub drop_marks : (ℕ → Bool) → Text → Text
drop_marks combining [] = []
drop_marks combining (c ∷ s) =
    let rest = drop_marks combining s in if combining c then rest else c ∷ rest

-- `_WHITESPACE.sub(" ", text)`: each run of white space becomes one space. The flag says that the
-- character before was white space.
unfoldable pub collapse_from : (ℕ → Bool) → Bool → Text → Text
collapse_from is_space after [] = []
collapse_from is_space after (c ∷ s) =
    let rest = collapse_from is_space (is_space c) s in
    if is_space c then (if after then rest else 32 ∷ rest) else c ∷ rest

-- A triple of head, relation and tail.
abbrev pub Triple : Type 0
Triple = Text × Text × Text

module _ (u : Unicode) where
  open u use {nfkc, nfd, combining, casefold, is_space}

  unfoldable pub strip_accents : Text → Text
  unfolding drop_marks
  strip_accents text = drop_marks combining (nfd text)

  unfoldable pub canonical_key : Text → Text
  unfolding translate strip_accents collapse_from
  canonical_key [] = []
  canonical_key (c ∷ s) =
      strip is_space
        (collapse_from is_space false (casefold (strip_accents (translate (nfkc (c ∷ s))))))

  unfoldable pub canonical_triple : Triple → Triple
  unfolding canonical_key
  canonical_triple (head, relation, tail) =
      (canonical_key head, canonical_key relation, canonical_key tail)
