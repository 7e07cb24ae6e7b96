-- ===== src/Chunker/TokenSize.antt =====
-- memgraphrag/chunker/token_size.py. The tokenizer is a parameter. The sizes are natural numbers:
-- the source does not refuse a negative overlap, which this does not cover.
use exeio_memgraphrag.Base.{
  ℕ, zero, suc, List, [], ◌∷◌, ◌++◌, ◌+◌, ◌-◌, Bool, true, false, if◌then◌else◌, ltb, leb, length,
  map, min, Result, ok, raise, value_error, ◌>>=◌,
}
use exeio_memgraphrag.Text.Defs.{Text, lstrip, rstrip, strip}
use exeio_memgraphrag.Text.Find.{starts_with, take, drop}

-- What the chunker calls, and Python's class of white space.
pub record Tokenizer : Type 0 where
  pub encode : Text → List ℕ
  pub decode : List ℕ → Text
  pub is_space : ℕ → Bool

pub record Chunk : Type 0 where
  pub tokens : ℕ
  pub content : Text
  pub chunk_order_index : ℕ

unfoldable pub window_step : ℕ → ℕ → Result ℕ
window_step chunk_token_size chunk_overlap_token_size =
    if leb chunk_token_size chunk_overlap_token_size
    then raise value_error
    else ok (chunk_token_size - chunk_overlap_token_size)

-- `range(start, stop, step)`, of at most as many numbers as the first argument says
unfoldable pub range_from : ℕ → ℕ → ℕ → ℕ → List ℕ
range_from zero start stop step = []
range_from (suc fuel) start stop step =
    let rest = range_from fuel (start + step) stop step in
    if ltb start stop then start ∷ rest else []

-- `range(0, stop, step)`; a step is 1 at least, so the fuel is enough
abbrev pub range : ℕ → ℕ → List ℕ
range stop step = range_from stop 0 stop step

-- `tokens[start:end]`, with the end of the window at `start`
abbrev pub window : ℕ → List ℕ → ℕ → List ℕ
window chunk_token_size tokens start =
    take (min (start + chunk_token_size) (length tokens) - start) (drop start tokens)

-- `content.split(separator)`, for a separator that is not empty: the first argument counts the
-- characters of a separator that are left to pass
unfoldable pub split_from : Text → ℕ → Text → Text → List Text
split_from separator skip part [] = part ∷ []
split_from separator (suc skip) part (c ∷ content) = split_from separator skip part content
split_from separator zero part (c ∷ content) = elim (starts_with separator (c ∷ content)) [
  | true ↦ part ∷ split_from separator (length separator - 1) [] content
  | false ↦ split_from separator zero (part ++ c ∷ []) content
]

module _ (tokenizer : Tokenizer) where
  open tokenizer use {encode, decode, is_space}

  unfoldable pub make_chunk : Text → ℕ → ℕ → Chunk
  unfolding lstrip rstrip
  make_chunk content tokens order = record {
    tokens = tokens;
    content = strip is_space content;
    chunk_order_index = order;
  }

  -- The loop that makes the chunks of the pieces, counted from `order`.
  unfoldable pub make_chunks : ℕ → List (ℕ × Text) → List Chunk
  unfolding make_chunk
  make_chunks order [] = []
  make_chunks order ((tokens, content) ∷ pieces) =
      make_chunk content tokens order ∷ make_chunks (suc order) pieces

  -- The windows over the tokens, each with its number of tokens.
  unfoldable pub window_pieces : ℕ → ℕ → List ℕ → List (ℕ × Text)
  unfolding range_from
  window_pieces chunk_token_size step tokens =
      map
        (λ start. (
          min chunk_token_size (length tokens - start),
          decode (window chunk_token_size tokens start),
        ))
        (range (length tokens) step)

  -- The loop over the parts between separators, with `split_by_character_only`.
  unfoldable pub whole_pieces : ℕ → List Text → Result (List (ℕ × Text))
  whole_pieces chunk_token_size [] = ok []
  whole_pieces chunk_token_size (part ∷ parts) =
      let rest = whole_pieces chunk_token_size parts in
      if ltb chunk_token_size (length (encode part))
      then raise value_error
      else (rest >>= (λ pieces. ok ((length (encode part), part) ∷ pieces)))

  -- The loop over the parts without it: a long part is cut into windows.
  unfoldable pub cut_pieces : ℕ → ℕ → List Text → Result (List (ℕ × Text))
  unfolding window_step window_pieces
  cut_pieces chunk_token_size overlap [] = ok []
  cut_pieces chunk_token_size overlap (part ∷ parts) =
      let rest = cut_pieces chunk_token_size overlap parts in
      if ltb chunk_token_size (length (encode part))
      then window_step chunk_token_size overlap >>= (λ step.
        rest >>= (λ pieces. ok (window_pieces chunk_token_size step (encode part) ++ pieces)))
      else rest >>= (λ pieces. ok ((length (encode part), part) ∷ pieces))

  -- The method for a content that is not blank; a separator that is missing or empty splits nothing.
  unfoldable pub chunk_content : Text → Text → Bool → ℕ → ℕ → Result (List Chunk)
  unfolding make_chunks window_step window_pieces whole_pieces cut_pieces split_from
  chunk_content content [] only overlap chunk_token_size = do
    step ← window_step chunk_token_size overlap
    ok (make_chunks 0 (window_pieces chunk_token_size step (encode content)))
  chunk_content content (c ∷ separator) only overlap chunk_token_size = do
    let parts = split_from (c ∷ separator) zero [] content
    let whole = whole_pieces chunk_token_size parts
    let cut = cut_pieces chunk_token_size overlap parts
    pieces ← if only then whole else cut
    ok (make_chunks 0 pieces)

  abbrev is_nil : Text → Bool
  is_nil [] = true
  is_nil (c ∷ t) = false

  abbrev pub is_blank : Text → Bool
  is_blank content = is_nil (strip is_space content)

  unfoldable pub chunking_by_token_size : Text → Text → Bool → ℕ → ℕ → Result (List Chunk)
  unfolding chunk_content lstrip rstrip
  chunking_by_token_size content separator only overlap chunk_token_size =
      let chunks = chunk_content content separator only overlap chunk_token_size in
      if is_blank content then ok [] else chunks

  unfoldable pub chunking_by_fixed_token : Text → ℕ → ℕ → Text → Bool → Result (List Chunk)
  unfolding chunking_by_token_size
  chunking_by_fixed_token content chunk_token_size overlap separator only =
      chunking_by_token_size content separator only overlap chunk_token_size
