-- ===== src/Api/Blanked.antt =====
-- What is left of a query for the search of keywords (memgraphrag/api/routers/cypher.py).
use exeio_memgraphrag.Base.{ℕ, [], ◌∷◌, ◌++◌, true, false, ◌==◌, ◌≡◌, refl, ap, ◌∙◌, arith}
use exeio_memgraphrag.Text.Defs.{Text}
use exeio_memgraphrag.Api.Cypher.{
  plain, quoted, is_quote, slash, backslash, backtick, space, scan, strip_literals_and_comments,
}

-- No quote stands in the text.
abbrev pub IsQuoteFree : Text → Type 0
IsQuoteFree [] = Unit
IsQuoteFree (c ∷ t) = (is_quote c ≡ false) × IsQuoteFree t

-- Neither a quote nor the begin of a comment.
abbrev pub IsPlain : Text → Type 0
IsPlain [] = Unit
IsPlain (c ∷ t) = (is_quote c ≡ false) × ((c == slash) ≡ false) × IsPlain t

-- What may stand in a literal between its quotes.
abbrev pub IsLiteral : ℕ → Text → Type 0
IsLiteral quote [] = Unit
IsLiteral quote (c ∷ t) = ((c == quote) ≡ false) × ((c == backslash) ≡ false) × IsLiteral quote t

scan-plain_char :
    (c : ℕ) (query : Text)
    → is_quote c ≡ false
    → (c == slash) ≡ false
    → scan plain (c ∷ query) ≡ c ∷ scan plain query
unfolding scan
scan-plain_char c [] no_quote no_slash = ground (arith, no_quote)
scan-plain_char c (d ∷ query) no_quote no_slash = ground (arith, no_quote, no_slash)

scan-quote :
    (quote : ℕ) (query : Text)
    → is_quote quote ≡ true
    → scan plain (quote ∷ query) ≡ scan (quoted quote) query
unfolding scan
scan-quote quote [] q = ground (arith, q)
scan-quote quote (d ∷ query) q = ground (arith, q)

scan-literal_char :
    (c quote : ℕ) (query : Text)
    → (c == quote) ≡ false
    → (c == backslash) ≡ false
    → scan (quoted quote) (c ∷ query) ≡ scan (quoted quote) query
unfolding scan
scan-literal_char c quote [] other plain_char = refl
scan-literal_char c quote (d ∷ query) other plain_char = ground (arith, other, plain_char)

scan-end :
    (quote : ℕ) (behind : Text)
    → is_quote quote ≡ true
    → (quote == backtick) ≡ false
    → scan (quoted quote) (quote ∷ behind) ≡ space ∷ scan plain behind
unfolding scan
scan-end quote [] q other = refl
scan-end quote (d ∷ behind) q other = ground (arith, q, other)

scan-literal :
    (body behind : Text) (quote : ℕ)
    → is_quote quote ≡ true
    → IsLiteral quote body
    → (quote == backtick) ≡ false
    → scan (quoted quote) (body ++ quote ∷ behind) ≡ space ∷ scan plain behind
scan-literal [] behind quote q l other = scan-end quote behind q other
scan-literal (c ∷ body) behind quote q (x, y, l) other =
    scan-literal_char c quote (body ++ quote ∷ behind) x y
    ∙ scan-literal body behind quote q l other

-- A text that is plain stays as it is in front of what follows.
scan-plain :
    (front query : Text) → IsPlain front → scan plain (front ++ query) ≡ front ++ scan plain query
scan-plain [] query p = refl
scan-plain (c ∷ front) query (no_quote, no_slash, p) =
    scan-plain_char c (front ++ query) no_quote no_slash
    ∙ ap (λ t. c ∷ t) (scan-plain front query p)

-- A literal between single or double quotes with no backslash in it, behind a text without quotes and
-- slashes, is blanked as a whole: the text in front of it stays, a space takes its place, and what
-- follows is read as a query of its own.
pub strip_literals_and_comments-literal :
    (front body behind : Text) (quote : ℕ)
    → IsPlain front
    → is_quote quote ≡ true
    → (quote == backtick) ≡ false
    → IsLiteral quote body
    → strip_literals_and_comments (front ++ quote ∷ (body ++ quote ∷ behind))
      ≡ front ++ space ∷ strip_literals_and_comments behind
unfolding strip_literals_and_comments
strip_literals_and_comments-literal front body behind quote p q other l =
    scan-plain front (quote ∷ (body ++ quote ∷ behind)) p
    ∙ ap (λ t. front ++ t)
        (scan-quote quote (body ++ quote ∷ behind) q ∙ scan-literal body behind quote q l other)
