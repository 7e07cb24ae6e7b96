-- ===== src/Text/Canonical/Tests.antt =====
-- A small Unicode table, and the key of a label under it.
use exeio_memgraphrag.Base.{
  ℕ, [], ◌∷◌, ◌≡◌, refl, ◌↔◌, ◌==◌, ◌||◌, ◌+◌, ◌&&◌, leb, map, if◌then◌else◌,
}
use exeio_memgraphrag.Text.Defs.{codes, lstrip, rstrip}
use exeio_memgraphrag.Text.Canonical.{Unicode, canonical_key}
use exeio_memgraphrag.Text.Canonical.Words.{words}
use exeio_memgraphrag.Text.Canonical.Keys.{folded, canonical_key-eq_iff}

abbrev lower : ℕ → ℕ
lower c = if leb b'A' c && leb c b'Z' then c + 32 else c

-- ASCII, with U+0301 as the one combining mark.
abbrev pub ascii : Unicode
ascii = record {
  nfkc = λ s. s;
  nfd = λ s. s;
  combining = λ c. c == 0x301;
  casefold = map lower;
  is_space = λ c. c == 32 || (leb 9 c && leb c 13);
  space_is_space = refl;
}

-- `re\u0301seau` with an accent, in capitals and with a tab and blanks, has the key of `reseau b`.
folded_label :
    canonical_key ascii (b' ' ∷ b'R' ∷ b'e' ∷ 0x301 ∷ b'S' ∷ 9 ∷ b' ' ∷ 0x153 ∷ b' ' ∷ [])
    ≡ codes "res oe"
unfolding canonical_key lstrip rstrip
folded_label = refl

canonical_key-eq_iff_example :
    (canonical_key ascii (codes " A  b") ≡ canonical_key ascii (codes "a B ")) ↔ (
      words ascii.is_space (folded ascii (codes " A  b"))
      ≡ words ascii.is_space (folded ascii (codes "a B ")))
canonical_key-eq_iff_example = canonical_key-eq_iff ascii (codes " A  b") (codes "a B ")
