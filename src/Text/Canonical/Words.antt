-- ===== src/Text/Canonical/Words.antt =====
-- What the white space of a canonical key amounts to: the words of the text, one space between.
use exeio_memgraphrag.Base.{
  ℕ, List, [], ◌∷◌, ◌++◌, Bool, true, false, ◌≡◌, ◌≢◌, refl, ap, sym, ◌∙◌, if◌then◌else◌, arith,
  Bool-cases, inl, inr,
}
use exeio_memgraphrag.Text.Defs.{Text, lstrip, rstrip, strip, keep_char}
use exeio_memgraphrag.Text.Canonical.{collapse_from}

-- A word in front of others, if it is not empty.
abbrev pub emit : Text → List Text → List Text
emit [] ws = ws
emit (c ∷ w) ws = (c ∷ w) ∷ ws

-- The word that a text starts with, and the words behind it.
unfoldable pub cut : (ℕ → Bool) → Text → Text × List Text
cut is_space [] = ([], [])
cut is_space (c ∷ s) =
    let (w, ws) = cut is_space s in if is_space c then ([], emit w ws) else (c ∷ w, ws)

-- `text.split()`
unfoldable pub words : (ℕ → Bool) → Text → List Text
unfolding cut
words is_space s = let (w, ws) = cut is_space s in emit w ws

-- `" ".join(ws)`
unfoldable pub join_from : Text → List Text → Text
join_from w [] = w
join_from w (x ∷ ws) = w ++ 32 ∷ join_from x ws

unfoldable pub join : List Text → Text
unfolding join_from
join [] = []
join (w ∷ ws) = join_from w ws

abbrev Nonempty : List Text → Type 0
Nonempty [] = Unit
Nonempty (w ∷ ws) = (w ≢ []) × Nonempty ws

module _ (is_space : ℕ → Bool) (space : is_space 32 ≡ true) where
  lstrip-collapse_after :
      (s : Text) → lstrip is_space (collapse_from is_space true s) ≡ collapse_from is_space true s
  unfolding lstrip collapse_from
  lstrip-collapse_after [] = refl
  lstrip-collapse_after (c ∷ s) = ground (arith, lstrip-collapse_after s)

  lstrip-collapse :
      (s : Text) → lstrip is_space (collapse_from is_space false s) ≡ collapse_from is_space true s
  unfolding lstrip collapse_from
  lstrip-collapse [] = refl
  lstrip-collapse (c ∷ s) = ground (arith, lstrip-collapse_after s)

  cut-Nonempty : (s : Text) → Nonempty (cut is_space s).1
  unfolding cut
  cut-Nonempty [] = tt
  cut-Nonempty (c ∷ s) = ground (arith, cut-Nonempty s)

  join_from-ne-nil : (w : Text) (ws : List Text) → w ≢ [] → join_from w ws ≢ []
  unfolding join_from
  join_from-ne-nil [] ws h e = h refl
  join_from-ne-nil (c ∷ w) [] h e = cc
  join_from-ne-nil (c ∷ w) (x ∷ ws) h e = cc

  keep_char_word : (c : ℕ) (r : Text) → is_space c ≡ false → keep_char is_space c r ≡ c ∷ r
  keep_char_word c [] h = rw h
  keep_char_word c (d ∷ r) h = refl

  keep_char_gap : (r : Text) → r ≢ [] → keep_char is_space 32 r ≡ 32 ∷ r
  keep_char_gap [] h = absurd (h refl)
  keep_char_gap (d ∷ r) h = refl

  join_from-cons : (c : ℕ) (w : Text) (ws : List Text) → join_from (c ∷ w) ws ≡ c ∷ join_from w ws
  unfolding join_from
  join_from-cons c w [] = refl
  join_from-cons c w (x ∷ ws) = refl

  join-gap :
      (w : Text) (ws : List Text)
      → Nonempty ws
      → keep_char is_space 32 (join (emit w ws)) ≡ join_from [] (emit w ws)
  unfolding join join_from
  join-gap [] [] h = rw space
  join-gap [] (x ∷ ws) h = keep_char_gap (join_from x ws) (join_from-ne-nil x ws h.0)
  join-gap (c ∷ w) ws h =
      keep_char_gap (join_from (c ∷ w) ws) (join_from-ne-nil (c ∷ w) ws (λ e. cc))

  rstrip-collapse :
      (s : Text)
      → (rstrip is_space (collapse_from is_space false s)
          ≡ (let (w, ws) = cut is_space s in join_from w ws))
        × (rstrip is_space (collapse_from is_space true s) ≡ join (words is_space s))
  unfolding rstrip collapse_from words join
  rstrip-collapse [] = (refl, refl)
  rstrip-collapse (c ∷ s) = elim (Bool-cases (is_space c)) [
    | inl gap ↦ rw gap (
      ap (keep_char is_space 32) (rstrip-collapse s).1
          ∙ join-gap (cut is_space s).0 (cut is_space s).1 (cut-Nonempty s),
      (rstrip-collapse s).1 ∙ refl,
    )
    | inr other ↦ rw other (
        let word =
          ap (keep_char is_space c) (rstrip-collapse s).0
          ∙ keep_char_word c _ other
          ∙ sym (join_from-cons c (cut is_space s).0 (cut is_space s).1) in
        (word, word))
  ]

  pub strip-collapse :
      (s : Text) → strip is_space (collapse_from is_space false s) ≡ join (words is_space s)
  strip-collapse s = rw (lstrip-collapse s) (rstrip-collapse s).1

  abbrev SpaceFree : Text → Type 0
  SpaceFree [] = Unit
  SpaceFree (c ∷ w) = (is_space c ≡ false) × SpaceFree w

  abbrev IsWords : List Text → Type 0
  IsWords [] = Unit
  IsWords (w ∷ ws) = (w ≢ []) × SpaceFree w × IsWords ws

  emit-IsWords : (w : Text) (ws : List Text) → SpaceFree w → IsWords ws → IsWords (emit w ws)
  emit-IsWords [] ws h k = k
  emit-IsWords (c ∷ w) ws h k = ((λ e. cc), h, k)

  cut-IsWords : (s : Text) → SpaceFree (cut is_space s).0 × IsWords (cut is_space s).1
  unfolding cut
  cut-IsWords [] = (tt, tt)
  cut-IsWords (c ∷ s) = elim (Bool-cases (is_space c)) [
    | inl gap ↦
        rw gap (
          tt,
          emit-IsWords (cut is_space s).0 (cut is_space s).1 (cut-IsWords s).0 (cut-IsWords s).1,
        )
    | inr other ↦ rw other ((other, (cut-IsWords s).0), (cut-IsWords s).1)
  ]

  words-IsWords : (s : Text) → IsWords (words is_space s)
  unfolding words
  words-IsWords s =
      emit-IsWords (cut is_space s).0 (cut is_space s).1 (cut-IsWords s).0 (cut-IsWords s).1

  emit_word : (w : Text) (ws : List Text) → w ≢ [] → emit w ws ≡ w ∷ ws
  emit_word [] ws h = absurd (h refl)
  emit_word (c ∷ w) ws h = refl

  cut-join_from :
      (w : Text) (ws : List Text)
      → SpaceFree w
      → IsWords ws
      → cut is_space (join_from w ws) ≡ (w, ws)
  unfolding cut join_from
  cut-join_from [] [] h k = refl
  cut-join_from [] (x ∷ ws) h k = rw (space, cut-join_from x ws k.1 k.2, emit_word x ws k.0)
  cut-join_from (c ∷ w) ws h k = rw (join_from-cons, h.0, cut-join_from w ws h.1 k)

  words-join : (ws : List Text) → IsWords ws → words is_space (join ws) ≡ ws
  unfolding words join
  words-join [] h = refl
  words-join (w ∷ ws) h = rw (cut-join_from w ws h.1 h.2) (emit_word w ws h.0)

  -- The words of a text are those of its joined words.
  pub words-join-words : (s : Text) → words is_space (join (words is_space s)) ≡ words is_space s
  words-join-words s = words-join (words is_space s) (words-IsWords s)
