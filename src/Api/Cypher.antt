-- ===== src/Api/Cypher.antt =====
-- memgraphrag/api/routers/cypher.py: `strip_literals_and_comments`. What stands at the position that
-- the source has come to is the argument, and where it is, in a literal or a comment, the span.
use exeio_memgraphrag.Base.{ℕ, [], ◌∷◌, Bool, if◌then◌else◌, not, ◌&&◌, ◌||◌, ◌==◌}
use exeio_memgraphrag.Text.Defs.{Text}

pub data Span : Type 0 where
  plain : Span
  -- behind the quote that opened a literal
  quoted : ℕ → Span
  line_comment block_comment : Span

abbrev pub single_quote : ℕ
single_quote = 39

abbrev pub double_quote : ℕ
double_quote = 34

abbrev pub backtick : ℕ
backtick = 96

abbrev pub backslash : ℕ
backslash = 92

abbrev pub slash : ℕ
slash = 47

abbrev pub star : ℕ
star = 42

abbrev pub line_feed : ℕ
line_feed = 10

abbrev pub space : ℕ
space = 32

abbrev pub is_quote : ℕ → Bool
is_quote c = c == single_quote || (c == double_quote || c == backtick)

unfoldable pub scan : Span → Text → Text
scan plain [] = []
scan plain (c ∷ []) = if is_quote c then space ∷ [] else c ∷ []
scan plain (c ∷ d ∷ query) =
    let literal = scan (quoted c) (d ∷ query) in
    let line = scan line_comment (d ∷ query) in
    let block = scan block_comment query in
    let rest = scan plain (d ∷ query) in
    if is_quote c
    then literal
    else if c == slash && d == slash
    then line
    else if c == slash && d == star
    then block
    else c ∷ rest
scan (quoted quote) [] = space ∷ []
scan (quoted quote) (c ∷ []) = space ∷ []
scan (quoted quote) (c ∷ d ∷ query) =
    let skipped = scan (quoted quote) query in
    let behind = scan plain (d ∷ query) in
    let rest = scan (quoted quote) (d ∷ query) in
    if c == backslash && not (quote == backtick)
    then skipped
    else if c == quote
    then (if quote == backtick && d == backtick then skipped else space ∷ behind)
    else rest
scan line_comment [] = space ∷ []
scan line_comment (c ∷ query) =
    let behind = scan plain query in
    let rest = scan line_comment query in
    if c == line_feed then space ∷ line_feed ∷ behind else rest
scan block_comment [] = space ∷ []
scan block_comment (c ∷ []) = space ∷ []
scan block_comment (c ∷ d ∷ query) =
    let behind = scan plain query in
    let rest = scan block_comment (d ∷ query) in
    if c == star && d == slash then space ∷ behind else rest

unfoldable pub strip_literals_and_comments : Text → Text
unfolding scan
strip_literals_and_comments query = scan plain query
