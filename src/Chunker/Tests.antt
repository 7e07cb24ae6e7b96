-- ===== src/Chunker/Tests.antt =====
-- A tokenizer with one token for each character, and what is cut with it.
use Prim.Native.String.{String}
use exeio_memgraphrag.Base.{ℕ, [], ◌∷◌, true, false, ◌==◌, ◌≡◌, refl, ok, raise, value_error}
use exeio_memgraphrag.Text.Defs.{codes}
use exeio_memgraphrag.Chunker.TokenSize.{Tokenizer, Chunk, chunking_by_token_size}

abbrev letters : Tokenizer
letters = record { encode = λ t. t; decode = λ t. t; is_space = λ c. c == 32 }

abbrev chunk : ℕ → String → ℕ → Chunk
chunk tokens content order = record {
  tokens = tokens;
  content = codes content;
  chunk_order_index = order;
}

windows_of_text :
    chunking_by_token_size letters (codes "abc defg") [] false 1 4
    ≡ ok (chunk 4 "abc" 0 ∷ chunk 4 "def" 1 ∷ chunk 2 "fg" 2 ∷ [])
unfolding chunking_by_token_size
windows_of_text = refl

parts_of_text :
    chunking_by_token_size letters (codes "ab;cdefg;") (codes ";") false 1 4
    ≡ ok (chunk 2 "ab" 0 ∷ chunk 4 "cdef" 1 ∷ chunk 2 "fg" 2 ∷ chunk 0 "" 3 ∷ [])
unfolding chunking_by_token_size
parts_of_text = refl

long_part :
    chunking_by_token_size letters (codes "ab;cdefg") (codes ";") true 1 4 ≡ raise value_error
unfolding chunking_by_token_size
long_part = refl
