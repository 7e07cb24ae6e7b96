-- ===== src/Chunker/Windows.antt =====
-- What the windows of memgraphrag/chunker/token_size.py hold of the tokens.
use exeio_memgraphrag.Base.{ℕ, suc, List, [], ◌∷◌, ◌≤◌, length}
use exeio_memgraphrag.Text.Defs.{Text, strip}
use exeio_memgraphrag.Chunker.TokenSize.{Tokenizer, Chunk}

-- The chunks of windows, numbered from `order`: each has the number of its tokens and their text.
abbrev pub chunks_of : Tokenizer → ℕ → List (List ℕ) → List Chunk
chunks_of tokenizer order [] = []
chunks_of tokenizer order (w ∷ windows) =
    (record {
      tokens = length w;
      content = strip tokenizer.is_space (tokenizer.decode w);
      chunk_order_index = order;
    })
    ∷ chunks_of tokenizer (suc order) windows

-- A fixed bound on the length of each of the windows.
abbrev pub AllWithin : ℕ → List (List ℕ) → Type 0
AllWithin size [] = Unit
AllWithin size (w ∷ windows) = (length w ≤ size) × AllWithin size windows
