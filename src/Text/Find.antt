-- ===== src/Text/Find.antt =====
-- Search in a text: `str.startswith`, `str.find` and slices.
use exeio_memgraphrag.Base.{
  ℕ, zero, suc, List, [], ◌∷◌, ◌++◌, Bool, true, false, if◌then◌else◌, ◌&&◌, ◌==◌, Option, none,
  some,
}
use exeio_memgraphrag.Text.Defs.{Text}

-- `text.startswith(prefix)`
abbrev pub starts_with : Text → Text → Bool
starts_with [] text = true
starts_with (c ∷ pre) [] = false
starts_with (c ∷ pre) (d ∷ text) = c == d && starts_with pre text

abbrev pub suc_some : Option ℕ → Option ℕ
suc_some none = none
suc_some (some i) = some (suc i)

-- `text.find(needle)`, with `none` for -1
unfoldable pub find : Text → Text → Option ℕ
find needle [] = if starts_with needle [] then some 0 else none
find needle (c ∷ text) =
    let rest = find needle text in if starts_with needle (c ∷ text) then some 0 else suc_some rest

-- `needle in text`
unfoldable pub has_text : Text → Text → Bool
unfolding find
has_text needle text = elim (find needle text) [ none ↦ false | some i ↦ true ]

-- `text[:i]`
abbrev pub take : ℕ → Text → Text
take zero text = []
take (suc i) [] = []
take (suc i) (c ∷ text) = c ∷ take i text

-- `text[i:]`
abbrev pub drop : ℕ → Text → Text
drop zero text = text
drop (suc i) [] = []
drop (suc i) (c ∷ text) = drop i text

-- `"".join(texts)`
abbrev pub concat : List Text → Text
concat [] = []
concat (text ∷ texts) = text ++ concat texts
