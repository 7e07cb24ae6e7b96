-- ===== src/Pipeline/Prepared.antt =====
-- The chunks that memgraphrag/pipeline.py hands to the engine.
use exeio_memgraphrag.Base.{
  List, [], ◌∷◌, true, Bool-cases, inl, inr, ◌≡◌, refl, sym, subst, ap, suc, Option, none, some,
  arith, length, ◌≤◌,
}
use exeio_memgraphrag.Text.Defs.{Text, strip}
use exeio_memgraphrag.Text.Find.{starts_with}
use exeio_memgraphrag.Pipeline.Index.{
  Attempt, done, failure, IndexChunk, Hashing, RagEngine, chunk_prefix, compute_mdhash_id, given_id,
  chunk_id_of, keep_chunk, no_chunks, assign_chunk_ids, idx_of, report, call_first, methods_of,
  index_prepared, index_chunks, IndexMethod,
}

-- Every identifier has the prefix of a chunk.
abbrev pub AllChunkIds : List Text → Type 0
AllChunkIds [] = Unit
AllChunkIds (id ∷ ids) = (starts_with chunk_prefix id ≡ true) × AllChunkIds ids

module _ (hashing : Hashing) where
  chunk_id_of-prefix :
      (chunk : IndexChunk) (content : Text)
      → starts_with chunk_prefix (chunk_id_of hashing chunk content) ≡ true
  unfolding chunk_id_of compute_mdhash_id
  chunk_id_of-prefix chunk content =
      elim (Bool-cases (starts_with chunk_prefix (given_id hashing chunk))) [
        | inl given ↦ rw given given
        | inr other ↦ rw other refl
      ]

  keep_chunk-AllChunkIds :
      (chunk : IndexChunk) (content : Text) (rest : List IndexChunk)
      → AllChunkIds (idx_of rest)
      → AllChunkIds (idx_of (keep_chunk hashing chunk content rest))
  unfolding keep_chunk
  keep_chunk-AllChunkIds chunk [] rest a = a
  keep_chunk-AllChunkIds chunk (c ∷ content) rest a = (chunk_id_of-prefix chunk (c ∷ content), a)

  assign_chunk_ids-AllChunkIds :
      (chunks : List IndexChunk) → AllChunkIds (idx_of (assign_chunk_ids hashing chunks))
  unfolding assign_chunk_ids
  assign_chunk_ids-AllChunkIds [] = tt
  assign_chunk_ids-AllChunkIds (chunk ∷ chunks) =
      keep_chunk-AllChunkIds chunk _ (assign_chunk_ids hashing chunks)
        (assign_chunk_ids-AllChunkIds chunks)

  length-keep_chunk :
      (chunk : IndexChunk) (content : Text) (rest : List IndexChunk)
      → length (idx_of (keep_chunk hashing chunk content rest)) ≤ suc (length (idx_of rest))
  unfolding keep_chunk
  length-keep_chunk chunk [] rest = omega arith
  length-keep_chunk chunk (c ∷ content) rest = omega arith

  length-assign_chunk_ids :
      (chunks : List IndexChunk) → length (idx_of (assign_chunk_ids hashing chunks)) ≤ length chunks
  unfolding assign_chunk_ids
  length-assign_chunk_ids [] = omega arith
  length-assign_chunk_ids (chunk ∷ chunks) = omega (
    arith,
    length-assign_chunk_ids chunks,
    length-keep_chunk chunk (strip hashing.is_space chunk.content)
        (assign_chunk_ids hashing chunks),
  )

  -- There is a text in none of the chunks.
  abbrev pub AllBlank : List IndexChunk → Type 0
  AllBlank [] = Unit
  AllBlank (chunk ∷ chunks) = (strip hashing.is_space chunk.content ≡ []) × AllBlank chunks

  assign_chunk_ids-blank :
      (chunks : List IndexChunk) → AllBlank chunks → assign_chunk_ids hashing chunks ≡ []
  unfolding assign_chunk_ids keep_chunk
  assign_chunk_ids-blank [] blank = refl
  assign_chunk_ids-blank (chunk ∷ chunks) (empty, blank) =
      rw empty (assign_chunk_ids-blank chunks blank)

module _ {E : Type 0} where
  report-done :
      (chunk_ids ids : List Text) (result : Attempt Unit × E)
      → (report chunk_ids result).0 ≡ done ids
      → ids ≡ chunk_ids
  report-done chunk_ids ids (done _, engine) e = cc
  report-done chunk_ids ids (failure message, engine) e = cc

  call_first-done :
      (methods : List (Option (IndexMethod E))) (prepared : List IndexChunk) (engine : E)
      (ids : List Text)
      → (call_first methods prepared engine).0 ≡ done ids
      → ids ≡ idx_of prepared
  unfolding call_first
  call_first-done [] prepared engine ids e = cc
  call_first-done (none ∷ methods) prepared engine ids e =
      call_first-done methods prepared engine ids e
  call_first-done (some method ∷ methods) prepared engine ids e =
      report-done (idx_of prepared) ids (method prepared engine) e

  index_prepared-done :
      (rag : RagEngine E) (prepared : List IndexChunk) (engine : E) (ids : List Text)
      → (index_prepared rag prepared engine).0 ≡ done ids
      → (ids ≡ idx_of prepared) × (1 ≤ length ids)
  unfolding index_prepared
  index_prepared-done rag [] engine ids e = cc
  index_prepared-done rag (chunk ∷ prepared) engine ids e =
      let same = call_first-done (methods_of rag) (chunk ∷ prepared) engine ids e in
      (same, omega (arith, ap length same))

  -- When the engine takes the chunks, each identifier that is noted has the prefix of a chunk, there
  -- is one at least, and there are no more than chunks. Where no chunk has a text the call raises
  -- and the engine is as it was.
  pub index_chunks-AllChunkIds :
      (hashing : Hashing) (rag : RagEngine E) (chunks : List IndexChunk) (engine : E)
      → let result = index_chunks hashing rag chunks engine in
        ((ids : List Text)
          → result.0 ≡ done ids
          → AllChunkIds ids × (1 ≤ length ids) × (length ids ≤ length chunks))
        × (AllBlank hashing chunks → result ≡ (failure no_chunks, engine))
  unfolding index_chunks
  index_chunks-AllChunkIds hashing rag chunks engine = (
    λ ids e.
        let (same, some_id) =
          index_prepared-done rag (assign_chunk_ids hashing chunks) engine ids e in
        (
          subst AllChunkIds (sym same) (assign_chunk_ids-AllChunkIds hashing chunks),
          some_id,
          omega (arith, ap length same, length-assign_chunk_ids hashing chunks),
        ),
    λ blank. rw (assign_chunk_ids-blank hashing chunks blank) (unfold index_prepared in refl),
  )
