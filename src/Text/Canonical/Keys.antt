-- ===== src/Text/Canonical/Keys.antt =====
-- When two labels have the same key.
use exeio_memgraphrag.Base.{[], ◌∷◌, ◌≡◌, refl, ap, sym, ◌∙◌, ◌↔◌}
use exeio_memgraphrag.Text.Defs.{Text}
use exeio_memgraphrag.Text.Canonical.{Unicode, translate, strip_accents, canonical_key}
use exeio_memgraphrag.Text.Canonical.Words.{words, join, strip-collapse, words-join-words}

module _ (u : Unicode) where
  open u use {nfkc, casefold, is_space, space_is_space}

  -- The text with its characters folded and its white space as it was.
  unfoldable pub folded : Text → Text
  folded [] = []
  folded (c ∷ s) = casefold (strip_accents u (translate (nfkc (c ∷ s))))

  -- The key of a label is its folded words with one space between.
  pub canonical_key-eq-join : (s : Text) → canonical_key u s ≡ join (words is_space (folded s))
  unfolding canonical_key folded
  canonical_key-eq-join [] = unfold words join in refl
  canonical_key-eq-join (c ∷ s) = strip-collapse is_space space_is_space _

  -- Two labels have the same key exactly when their folded texts have the same words.
  pub canonical_key-eq_iff :
      (s t : Text)
      → (canonical_key u s ≡ canonical_key u t)
        ↔ (words is_space (folded s) ≡ words is_space (folded t))
  canonical_key-eq_iff s t = (
    λ same. sym (words_of_key s) ∙ ap (words is_space) same ∙ words_of_key t,
    λ same. canonical_key-eq-join s ∙ ap join same ∙ sym (canonical_key-eq-join t),
  )
    where
      words_of_key : (r : Text) → words is_space (canonical_key u r) ≡ words is_space (folded r)
      words_of_key r =
          rw canonical_key-eq-join (words-join-words is_space space_is_space (folded r))
