-- ===== src/Agent/Fence.antt =====
-- The fences around the passages of a prompt: memgraphrag/prompts/templates.py, and their numbering
-- from an offset in memgraphrag/agent/tools.py.
use exeio_memgraphrag.Base.{
  ℕ, zero, suc, ◌+◌, ◌-◌, ◌/◌, ◌%◌, List, [], ◌∷◌, ◌++◌, true, false, if◌then◌else◌, ltb, leb,
  length,
}
use exeio_memgraphrag.Text.Defs.{Text, codes}
use exeio_memgraphrag.Text.Find.{starts_with}
use exeio_memgraphrag.Chunker.TokenSize.{split_from}

-- The decimal digits of a number; the number itself is fuel enough.
unfoldable pub digits : ℕ → ℕ → Text
digits zero n = []
digits (suc fuel) n =
    let front = digits fuel (n / 10) in
    if ltb n 10 then (48 + n) ∷ [] else front ++ (48 + n % 10) ∷ []

abbrev pub decimal : ℕ → Text
decimal n = digits (suc n) n

-- `text.replace(old, new)`, for a text `old` that is not empty: the first argument counts the
-- characters of it that are left to pass
unfoldable pub replace_from : ℕ → Text → Text → Text → Text
replace_from skip old new [] = []
replace_from (suc skip) old new (c ∷ text) = replace_from skip old new text
replace_from zero old new (c ∷ text) = elim (starts_with old (c ∷ text)) [
  | true ↦ new ++ replace_from (length old - 1) old new text
  | false ↦ c ∷ replace_from zero old new text
]

unfoldable pub neutralize_fences : Text → Text
unfolding replace_from
neutralize_fences text =
    replace_from 0 (codes ">>>") (codes "> > >") (replace_from 0 (codes "<<<") (codes "< < <") text)

abbrev pub passage_fence_open : ℕ → Text
passage_fence_open index = codes "<<<PASSAGE " ++ decimal index ++ codes ">>>"

abbrev pub passage_fence_close : ℕ → Text
passage_fence_close index = codes "<<<END PASSAGE " ++ decimal index ++ codes ">>>"

abbrev pub newline : ℕ
newline = 10

-- The label of a passage; empty where there is none.
unfoldable pub fence_header : ℕ → Text → Text
unfolding digits neutralize_fences
fence_header index [] = passage_fence_open index
fence_header index (c ∷ source) =
    passage_fence_open index ++ codes " source=" ++ neutralize_fences (c ∷ source)

unfoldable pub fence_block : ℕ → Text → Text → Text
unfolding digits fence_header neutralize_fences
fence_block index source doc =
    fence_header index source
    ++ newline ∷ neutralize_fences doc
    ++ newline ∷ passage_fence_close index

-- The blocks of the passages, numbered from `index`; a label that is missing is empty.
unfoldable pub fence_blocks : ℕ → List Text → List Text → List Text
unfolding fence_block
fence_blocks index [] sources = []
fence_blocks index (doc ∷ docs) [] = fence_block index [] doc ∷ fence_blocks (suc index) docs []
fence_blocks index (doc ∷ docs) (source ∷ sources) =
    fence_block index source doc ∷ fence_blocks (suc index) docs sources

abbrev pub blank_line : Text
blank_line = newline ∷ newline ∷ []

-- `"\n\n".join(blocks)`
unfoldable pub join_blocks : List Text → Text
join_blocks [] = []
join_blocks (block ∷ []) = block
join_blocks (block ∷ b ∷ blocks) = block ++ blank_line ++ join_blocks (b ∷ blocks)

unfoldable pub fence_passages : List Text → List Text → Text
unfolding fence_blocks join_blocks
fence_passages docs sources = join_blocks (fence_blocks 1 docs sources)

-- `[""] * n`
abbrev pub blanks : ℕ → List Text
blanks zero = []
blanks (suc n) = [] ∷ blanks n

-- `blocks[pad:]`
abbrev pub behind : ℕ → List Text → List Text
behind zero blocks = blocks
behind (suc pad) [] = []
behind (suc pad) (block ∷ blocks) = behind pad blocks

unfoldable pub fence_from : ℕ → List Text → List Text → Text
unfolding fence_passages join_blocks split_from
fence_from start docs sources =
    let pad = start - 1 in
    let fenced = fence_passages (blanks pad ++ docs) (blanks pad ++ sources) in
    if leb start 1
    then fence_passages docs sources
    else join_blocks (behind pad (split_from blank_line 0 [] fenced))
