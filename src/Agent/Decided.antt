-- ===== src/Agent/Decided.antt =====
-- How the filter of memgraphrag/agent/harmony.py decides on a rendering, and what the user sees of
-- a whole stream, however it is cut into chunks.
use exeio_memgraphrag.Base.{
  ℕ, List, [], ◌∷◌, ◌++◌, ◌≤◌, ◌<◌, Bool, true, false, if◌then◌else◌, leb, none, ◌≡◌, inl, inr,
  refl, sym, ap, ◌∙◌, length, arith, Bool-cases, append-nil, append_assoc,
}
use exeio_memgraphrag.Text.Defs.{Text}
use exeio_memgraphrag.Text.Find.{starts_with, find, has_text, concat}
use exeio_memgraphrag.Text.Found.{find-short, starts_with-length}
use exeio_memgraphrag.Agent.Harmony.{
  deciding, passthrough, waiting, unset, separator_text, tagged, untagged, tagged_final,
  untagged_final, mark, new_filter, untagged_open, decide, feed_decided, feed, release, stream,
  Separator, HarmonyFilter,
}
use exeio_memgraphrag.Agent.Opened.{
  not_true, unmarked_part, unmarked-unseparated, unmarked_short, untagged_open-append,
  untagged_open-short, untagged_open-longer,
}
use exeio_memgraphrag.Agent.Streamed.{
  at_state, final_channel, stream-waiting, released_plain, passthrough-IsPlain,
}

module _ (is_space is_word : ℕ → Bool) where
  decide-marked :
      (b : Text)
      → has_text mark b ≡ true
      → decide is_space is_word (at_state deciding unset b) ≡ at_state waiting tagged b
  unfolding decide
  decide-marked b h = elim (Bool-cases (has_text tagged_final b)) [
    | inl found ↦ rw found
    | inr missing ↦ rw (missing, h)
  ]

  decide-open :
      (b : Text)
      → has_text mark b ≡ false
      → untagged_open is_space is_word b ≡ true
      → decide is_space is_word (at_state deciding unset b) ≡ at_state waiting untagged b
  unfolding decide
  decide-open b h o = rw (unmarked-unseparated b h, h, o)

  decide-plain :
      (b : Text)
      → has_text mark b ≡ false
      → untagged_open is_space is_word b ≡ false
      → decide is_space is_word (at_state deciding unset b)
        ≡ (if leb 24 (length b) then at_state passthrough unset b else at_state deciding unset b)
  unfolding decide
  decide-plain b h o = rw (unmarked-unseparated b h, h, o)

  -- Feeding a filter that decides for a rendering is feeding one that has decided.
  feed-deciding :
      (b t : Text)
      → feed is_space is_word (at_state deciding unset b) t
        ≡ feed_decided is_space is_word (decide is_space is_word (at_state deciding unset (b ++ t)))
  unfolding feed
  feed-deciding b t = refl

  feed-waiting :
      (b t : Text) (separator : Separator)
      → feed is_space is_word (at_state waiting separator b) t
        ≡ feed_decided is_space is_word (at_state waiting separator (b ++ t))
  unfolding feed
  feed-waiting b t separator = refl

  stream-cons :
      (f g : HarmonyFilter) (t : Text) (chunks : List Text)
      → feed is_space is_word f t ≡ feed is_space is_word g t
      → stream is_space is_word f (t ∷ chunks) ≡ stream is_space is_word g (t ∷ chunks)
  unfolding stream
  stream-cons f g t chunks h =
      ap (λ (r : HarmonyFilter × Text). r.1 ++ stream is_space is_word r.0 chunks) h

  plain_rest :
      (long : Bool) (b : Text) (chunks : List Text)
      → stream is_space is_word (at_state deciding unset b) chunks ≡ b ++ concat chunks
      → let r =
          feed_decided is_space is_word
            (if long then at_state passthrough unset b else at_state deciding unset b) in
        r.1 ++ stream is_space is_word r.0 chunks ≡ b ++ concat chunks
  unfolding feed_decided release
  plain_rest true b chunks rest =
      released_plain is_space is_word passthrough unset (passthrough-IsPlain is_space is_word) b
        chunks
  plain_rest false b chunks rest = rest

  -- Undecided for one more chunk, or from now on in plain text.
  stream-deciding_plain :
      (b t : Text) (chunks : List Text)
      → has_text mark (b ++ t) ≡ false
      → untagged_open is_space is_word (b ++ t) ≡ false
      → stream is_space is_word (at_state deciding unset (b ++ t)) chunks
        ≡ (b ++ t) ++ concat chunks
      → stream is_space is_word (at_state deciding unset b) (t ∷ chunks) ≡ b ++ concat (t ∷ chunks)
  unfolding stream
  stream-deciding_plain b t chunks h o rest =
      ap
        (λ (f : HarmonyFilter).
          let r = feed_decided is_space is_word f in r.1 ++ stream is_space is_word r.0 chunks)
        (decide-plain (b ++ t) h o)
      ∙ plain_rest (leb 24 (length (b ++ t))) (b ++ t) chunks rest
      ∙ append_assoc b t (concat chunks)

  -- A chunk that leaves the rendering open.
  stream-deciding_short :
      (b t : Text) (chunks : List Text)
      → has_text mark (b ++ t) ≡ false
      → untagged_open is_space is_word (b ++ t) ≡ false
      → length (b ++ t) < 24
      → stream is_space is_word (at_state deciding unset b) (t ∷ chunks)
        ≡ stream is_space is_word (at_state deciding unset (b ++ t)) chunks
  unfolding stream feed_decided
  stream-deciding_short b t chunks h o short =
      let few : leb 24 (length (b ++ t)) ≡ false = ground (arith, short) in
      ap
        (λ (f : HarmonyFilter).
          let r = feed_decided is_space is_word f in r.1 ++ stream is_space is_word r.0 chunks)
        (decide-plain (b ++ t) h o
          ∙ ap
              (λ q.
                if q then at_state passthrough unset (b ++ t) else at_state deciding unset (b ++ t))
              few)

  -- A chunk that decides for a rendering.
  stream-decided :
      (separator : Separator) (b t : Text) (chunks : List Text)
      → decide is_space is_word (at_state deciding unset (b ++ t))
        ≡ at_state waiting separator (b ++ t)
      → find (separator_text separator) b ≡ none
      → stream is_space is_word (at_state deciding unset b) (t ∷ chunks)
        ≡ final_channel is_space is_word separator (b ++ concat (t ∷ chunks))
  stream-decided separator b t chunks decided absent =
      stream-cons (at_state deciding unset b) (at_state waiting separator b) t chunks (
        feed-deciding b t
        ∙ ap (feed_decided is_space is_word) decided
        ∙ sym (feed-waiting b t separator))
      ∙ stream-waiting is_space is_word separator b (t ∷ chunks) absent

  stream-deciding_nil : (b : Text) → stream is_space is_word (at_state deciding unset b) [] ≡ b
  unfolding stream
  stream-deciding_nil b = refl

  plain_from :
      (b : Text) (chunks : List Text)
      → has_text mark (b ++ concat chunks) ≡ false
      → untagged_open is_space is_word (b ++ concat chunks) ≡ false
      → stream is_space is_word (at_state deciding unset b) chunks ≡ b ++ concat chunks
  plain_from b [] h o = stream-deciding_nil b ∙ sym (append-nil b)
  plain_from b (t ∷ chunks) h o =
      let whole = append_assoc b t (concat chunks) in
      let h' = ap (has_text mark) whole ∙ h in
      let o' = ap (untagged_open is_space is_word) whole ∙ o in
      stream-deciding_plain b t chunks (unmarked_part (b ++ t) (concat chunks) h')
        (not_true (untagged_open is_space is_word (b ++ t)) (λ found.
          ground (arith, o', untagged_open-append is_space is_word (b ++ t) (concat chunks) found)))
        (plain_from (b ++ t) chunks h' o')

  tagged_from :
      (b : Text) (chunks : List Text)
      → starts_with mark (b ++ concat chunks) ≡ true
      → length b ≤ 1
      → stream is_space is_word (at_state deciding unset b) chunks
        ≡ final_channel is_space is_word tagged (b ++ concat chunks)
  tagged_from b [] h short =
      ground (arith, starts_with-length mark (b ++ []) h, ap length (append-nil b))
  tagged_from b (t ∷ chunks) h short =
      let whole = append_assoc b t (concat chunks) in
      let h' = ap (starts_with mark) whole ∙ h in
      elim (Bool-cases (has_text mark (b ++ t))) [
        | inl found ↦
            stream-decided tagged b t chunks (decide-marked (b ++ t) found)
              (find-short tagged_final b (omega (arith, short)))
        | inr missing ↦
            let short' = unmarked_short (b ++ t) (concat chunks) h' missing in
            stream-deciding_short b t chunks missing
              (untagged_open-short is_space is_word (b ++ t) (omega (arith, short')))
              (omega (arith, short'))
            ∙ tagged_from (b ++ t) chunks h' short'
            ∙ ap (final_channel is_space is_word tagged) whole
      ]

  untagged_from :
      (b : Text) (chunks : List Text)
      → has_text mark (b ++ concat chunks) ≡ false
      → untagged_open is_space is_word (b ++ concat chunks) ≡ true
      → untagged_open is_space is_word b ≡ false
      → stream is_space is_word (at_state deciding unset b) chunks
        ≡ final_channel is_space is_word untagged (b ++ concat chunks)
  untagged_from b [] h o closed =
      ground (arith, o, closed, ap (untagged_open is_space is_word) (append-nil b))
  untagged_from b (t ∷ chunks) h o closed =
      let whole = append_assoc b t (concat chunks) in
      let h' = ap (has_text mark) whole ∙ h in
      let o' = ap (untagged_open is_space is_word) whole ∙ o in
      let unmarked = unmarked_part (b ++ t) (concat chunks) h' in
      elim (Bool-cases (untagged_open is_space is_word (b ++ t))) [
        | inl found ↦ stream-decided untagged b t chunks (decide-open (b ++ t) unmarked found) (
            find-short untagged_final b (
              omega
                (arith, untagged_open-longer is_space is_word b (concat (t ∷ chunks)) o closed)))
        | inr missing ↦
            stream-deciding_short b t chunks unmarked missing (
              omega
                (arith, untagged_open-longer is_space is_word (b ++ t) (concat chunks) o' missing))
            ∙ untagged_from (b ++ t) chunks h' o' missing
            ∙ ap (final_channel is_space is_word untagged) whole
      ]

  -- A stream with no mark that does not open a channel by its name passes through as it is, however
  -- it is cut into chunks.
  pub stream-plain :
      (chunks : List Text)
      → has_text mark (concat chunks) ≡ false
      → untagged_open is_space is_word (concat chunks) ≡ false
      → stream is_space is_word new_filter chunks ≡ concat chunks
  stream-plain chunks h o = plain_from [] chunks h o

  -- Of a stream that begins with a mark the user sees what stands behind the first final marker, up
  -- to the next mark, and of one without that marker the text without its scaffolding; however the
  -- stream is cut into chunks.
  pub stream-tagged :
      (chunks : List Text)
      → starts_with mark (concat chunks) ≡ true
      → stream is_space is_word new_filter chunks
        ≡ final_channel is_space is_word tagged (concat chunks)
  stream-tagged chunks h = tagged_from [] chunks h (omega arith)

  -- Of a stream with no mark that opens a channel by its name the user sees what stands behind the
  -- first `assistantfinal`, and of one without that word the text without its scaffolding; however
  -- the stream is cut into chunks.
  pub stream-untagged :
      (chunks : List Text)
      → has_text mark (concat chunks) ≡ false
      → untagged_open is_space is_word (concat chunks) ≡ true
      → stream is_space is_word new_filter chunks
        ≡ final_channel is_space is_word untagged (concat chunks)
  stream-untagged chunks h o =
      untagged_from [] chunks h o (untagged_open-short is_space is_word [] (omega arith))
