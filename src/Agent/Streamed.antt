-- ===== src/Agent/Streamed.antt =====
-- What the user sees of a stream that goes through the filter of memgraphrag/agent/harmony.py.
use exeio_memgraphrag.Base.{
  ℕ, List, [], ◌∷◌, ◌++◌, ◌+◌, Bool, false, ◌==◌, Option, none, some, ◌≡◌, inl, inr, refl, sym, ap,
  ◌∙◌, length, arith, Bool-cases, Option-cases, append-nil, append_assoc,
}
use exeio_memgraphrag.Text.Defs.{Text}
use exeio_memgraphrag.Text.Find.{starts_with, find, take, drop, concat}
use exeio_memgraphrag.Text.Found.{
  find-append, find-missing, find-absent, find-there, find-length, take-append, drop-append,
}
use exeio_memgraphrag.Agent.Harmony.{
  HarmonyFilter, State, passthrough, waiting, emitting, closed, Separator, unset, tagged, untagged,
  separator_text, mark, split_hold, release_held, release, feed_decided, feed, flush, stream,
  strip_scaffolding,
}

abbrev pub at_state : State → Separator → Text → HarmonyFilter
at_state state separator buffer = record { buffer = buffer; state = state; separator = separator }

-- Nothing is lost of a buffer.
split_hold-append : (b : Text) → (split_hold b).0 ++ (split_hold b).1 ≡ b
unfolding split_hold
split_hold-append [] = refl
split_hold-append (c ∷ []) = elim (Bool-cases (c == b'<')) [
  | inl less ↦ rw less
  | inr other ↦ rw other
]
split_hold-append (c ∷ d ∷ b) = ap (λ r. c ∷ r) (split_hold-append (d ∷ b))

regroup : (o h t c b : Text) → o ++ h ≡ b → o ++ ((h ++ t) ++ c) ≡ b ++ (t ++ c)
regroup o h t c b e =
    ap (λ r. o ++ r) (append_assoc h t c)
    ∙ sym (append_assoc o h (t ++ c))
    ∙ ap (λ r. r ++ (t ++ c)) e

-- A text up to the first mark.
abbrev pub cut_at : Option ℕ → Text → Text
cut_at (some cut) t = take cut t
cut_at none t = t

abbrev pub before_mark : Text → Text
before_mark t = cut_at (find mark t) t

before_mark-none : (t : Text) → find mark t ≡ none → before_mark t ≡ t
before_mark-none t h = ap (λ o. cut_at o t) h

before_mark-found :
    (t x : Text) (cut : ℕ) → find mark t ≡ some cut → before_mark (t ++ x) ≡ take cut t
before_mark-found t x cut h =
    ap (λ o. cut_at o (t ++ x)) (find-append mark t x cut h)
    ∙ take-append cut t x (omega (arith, find-length mark t cut h))

before_mark-cons :
    (c : ℕ) (t : Text) → starts_with mark (c ∷ t) ≡ false → before_mark (c ∷ t) ≡ c ∷ before_mark t
before_mark-cons c t h = elim (Option-cases (find mark t)) [
  | inl missing ↦
      before_mark-none (c ∷ t) (find-absent mark c t h missing)
      ∙ ap (λ r. c ∷ r) (sym (before_mark-none t missing))
  | inr (i, at) ↦
      ap (λ o. cut_at o (c ∷ t)) (find-there mark c t i h at) ∙ ap (λ o. c ∷ cut_at o t) (sym at)
]

find-held : (b : Text) → find mark (split_hold b).1 ≡ none
unfolding split_hold find
find-held [] = refl
find-held (c ∷ []) = elim (Bool-cases (c == b'<')) [
  | inl less ↦ rw less (find-absent mark c [] (ground arith) refl)
  | inr other ↦ rw other
]
find-held (c ∷ d ∷ b) = find-held (d ∷ b)

-- Without a mark in the buffer, what `_release` emits of it is not behind a mark of the stream.
before_mark-split_hold :
    (b x : Text)
    → find mark b ≡ none
    → before_mark (b ++ x) ≡ (split_hold b).0 ++ before_mark ((split_hold b).1 ++ x)
unfolding split_hold
before_mark-split_hold [] x h = refl
before_mark-split_hold (c ∷ []) x h = elim (Bool-cases (c == b'<')) [
  | inl less ↦ rw less
  | inr other ↦ rw other (before_mark-cons c x (ground arith))
]
before_mark-split_hold (c ∷ d ∷ b) x h =
    let (off, rest) = find-missing mark c (d ∷ b) h in
    before_mark-cons c (d ∷ b ++ x) off ∙ ap (λ r. c ∷ r) (before_mark-split_hold (d ∷ b) x rest)

module _ (is_space is_word : ℕ → Bool) where
  -- A state in which `feed` releases all but a `<` at the end, and `flush` that too.
  pub record IsPlain (state : State) (separator : Separator) : Type 0 where
    pub fed :
        (b t : Text)
        → feed is_space is_word (at_state state separator b) t
          ≡ release_held (at_state state separator (b ++ t))
    pub flushed : (b : Text) → (flush is_space is_word (at_state state separator b)).1 ≡ b

  pub released_plain :
      (state : State) (separator : Separator)
      → IsPlain state separator
      → (b : Text) (chunks : List Text)
      → (release_held (at_state state separator b)).1
          ++ stream is_space is_word (release_held (at_state state separator b)).0 chunks
        ≡ b ++ concat chunks
  unfolding stream
  released_plain state separator plain b [] =
      rw (plain.flushed (split_hold b).1) (split_hold-append b ∙ sym (append-nil b))
  released_plain state separator plain b (t ∷ chunks) =
      let (out, held) = split_hold b in
      rw (plain.fed held t) (
        ap (λ r. out ++ r) (released_plain state separator plain (held ++ t) chunks)
        ∙ regroup out held t (concat chunks) b (split_hold-append b))

  pub passthrough-IsPlain : IsPlain passthrough unset
  unfolding feed feed_decided release flush
  passthrough-IsPlain = record { fed = λ b t. refl; flushed = λ b. refl }

  emitting-IsPlain : IsPlain emitting untagged
  unfolding feed feed_decided release flush
  emitting-IsPlain = record { fed = λ b t. refl; flushed = λ b. refl }

  release-found :
      (b : Text) (cut : ℕ)
      → find mark b ≡ some cut
      → release (at_state emitting tagged b) ≡ (at_state closed tagged [], take cut b)
  unfolding release find
  release-found b cut h = rw h

  release-missing :
      (b : Text)
      → find mark b ≡ none
      → release (at_state emitting tagged b) ≡ release_held (at_state emitting tagged b)
  unfolding release find
  release-missing b h = rw h

  stream-closed :
      (b : Text) (separator : Separator) (chunks : List Text)
      → stream is_space is_word (at_state closed separator b) chunks ≡ []
  unfolding stream
  stream-closed b separator [] = refl
  stream-closed b separator (t ∷ chunks) = stream-closed b separator chunks

  stream-emitting_cons :
      (b t : Text) (chunks : List Text)
      → stream is_space is_word (at_state emitting tagged b) (t ∷ chunks)
        ≡ (release (at_state emitting tagged (b ++ t))).1
          ++ stream is_space is_word (release (at_state emitting tagged (b ++ t))).0 chunks
  unfolding stream
  stream-emitting_cons b t chunks = refl

  stream-emitting_nil : (b : Text) → stream is_space is_word (at_state emitting tagged b) [] ≡ b
  unfolding stream
  stream-emitting_nil b = refl

  -- What is released and streamed of a buffer, from what is streamed behind the part held back.
  released_tagged_by :
      (b : Text) (chunks : List Text)
      → stream is_space is_word (at_state emitting tagged (split_hold b).1) chunks
        ≡ before_mark ((split_hold b).1 ++ concat chunks)
      → (release (at_state emitting tagged b)).1
          ++ stream is_space is_word (release (at_state emitting tagged b)).0 chunks
        ≡ before_mark (b ++ concat chunks)
  released_tagged_by b chunks h = elim (Option-cases (find mark b)) [
    | inr (cut, at) ↦
        rw (release-found b cut at, stream-closed [] tagged chunks)
          (append-nil (take cut b) ∙ sym (before_mark-found b (concat chunks) cut at))
    | inl missing ↦
        rw (release-missing b missing) (
          ap (λ r. (split_hold b).0 ++ r) h
          ∙ sym (before_mark-split_hold b (concat chunks) missing))
  ]

  released_tagged :
      (b : Text) (chunks : List Text)
      → (release (at_state emitting tagged b)).1
          ++ stream is_space is_word (release (at_state emitting tagged b)).0 chunks
        ≡ before_mark (b ++ concat chunks)
  released_tagged b [] = released_tagged_by b [] (
      stream-emitting_nil (split_hold b).1
      ∙ sym (before_mark-none (split_hold b).1 (find-held b))
      ∙ ap before_mark (sym (append-nil (split_hold b).1)))
  released_tagged b (t ∷ chunks) =
      let held = (split_hold b).1 in
      released_tagged_by b (t ∷ chunks) (
        stream-emitting_cons held t chunks
        ∙ released_tagged (held ++ t) chunks
        ∙ ap before_mark (append_assoc held t (concat chunks)))

  emitting-IsPlain_unset : IsPlain emitting unset
  unfolding feed feed_decided release flush
  emitting-IsPlain_unset = record { fed = λ b t. refl; flushed = λ b. refl }

  -- What the emitting state makes of a text.
  abbrev pub emitted : Separator → Text → Text
  emitted tagged text = before_mark text
  emitted unset text = text
  emitted untagged text = text

  released_emitting :
      (separator : Separator) (b : Text) (chunks : List Text)
      → (release (at_state emitting separator b)).1
          ++ stream is_space is_word (release (at_state emitting separator b)).0 chunks
        ≡ emitted separator (b ++ concat chunks)
  unfolding release
  released_emitting tagged b chunks = released_tagged b chunks
  released_emitting unset b chunks = released_plain emitting unset emitting-IsPlain_unset b chunks
  released_emitting untagged b chunks = released_plain emitting untagged emitting-IsPlain b chunks

  -- The answer of a whole text: what stands behind the separator, up to the next mark if that is
  -- tagged; without a separator, the text without its scaffolding.
  abbrev pub answer_at : Separator → Text → Option ℕ → Text
  answer_at separator text none = strip_scaffolding is_space is_word text
  answer_at separator text (some i) =
      emitted separator (drop (i + length (separator_text separator)) text)

  abbrev pub final_channel : Separator → Text → Text
  final_channel separator text = answer_at separator text (find (separator_text separator) text)

  feed-waiting_missing :
      (separator : Separator) (b t : Text)
      → find (separator_text separator) (b ++ t) ≡ none
      → feed is_space is_word (at_state waiting separator b) t
        ≡ (at_state waiting separator (b ++ t), [])
  unfolding feed feed_decided find
  feed-waiting_missing separator b t h = rw h

  feed-waiting_found :
      (separator : Separator) (b t : Text) (i : ℕ)
      → find (separator_text separator) (b ++ t) ≡ some i
      → feed is_space is_word (at_state waiting separator b) t
        ≡ release
            (at_state emitting separator (drop (i + length (separator_text separator)) (b ++ t)))
  unfolding feed feed_decided find
  feed-waiting_found separator b t i h = rw h

  pub stream-waiting :
      (separator : Separator) (b : Text) (chunks : List Text)
      → find (separator_text separator) b ≡ none
      → stream is_space is_word (at_state waiting separator b) chunks
        ≡ final_channel separator (b ++ concat chunks)
  unfolding stream
  stream-waiting separator b [] h = rw (append-nil b) (ap (λ o. answer_at separator b o) (sym h))
  stream-waiting separator b (t ∷ chunks) h =
      let whole = b ++ t in
      let sep = separator_text separator in
      elim (Option-cases (find sep whole)) [
        | inl missing ↦ rw (feed-waiting_missing separator b t missing) (
            stream-waiting separator whole chunks missing
            ∙ ap (final_channel separator) (append_assoc b t (concat chunks)))
        | inr (i, at) ↦ rw (feed-waiting_found separator b t i at) (
            released_emitting separator (drop (i + length sep) whole) chunks
            ∙ ap (emitted separator) (
                sym
                  (drop-append (i + length sep) whole (concat chunks) (find-length sep whole i at)))
            ∙ ap (λ o. answer_at separator (whole ++ concat chunks) o)
                (sym (find-append sep whole (concat chunks) i at))
            ∙ ap (final_channel separator) (append_assoc b t (concat chunks)))
      ]
