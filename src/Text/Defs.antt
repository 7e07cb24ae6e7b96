-- ===== src/Text/Defs.antt =====
-- Texts, and the parts of `str` that the program uses.
use Prim.Native.Char.{code}
use Prim.Native.String.{String}
use exeio_memgraphrag.Base.{ℕ, List, [], ◌∷◌, Bool, if◌then◌else◌, ℕ_discrete}

abbrev pub Text : Type 0
Text = List ℕ

-- A literal as a text.
abbrev pub codes : String → Text
codes String.[] = []
codes (String.◌∷◌ c s) = code c ∷ codes s

unfoldable pub Text-discrete : Discrete Text
Text-discrete = hlevel ℕ_discrete

-- `text.lstrip()`, for the given class of white space
unfoldable pub lstrip : (ℕ → Bool) → Text → Text
lstrip is_space [] = []
lstrip is_space (c ∷ s) = let rest = lstrip is_space s in if is_space c then rest else c ∷ s

-- A character in front of a text that is stripped already.
abbrev pub keep_char : (ℕ → Bool) → ℕ → Text → Text
keep_char is_space c [] = if is_space c then [] else c ∷ []
keep_char is_space c (d ∷ r) = c ∷ d ∷ r

-- `text.rstrip()`
unfoldable pub rstrip : (ℕ → Bool) → Text → Text
rstrip is_space [] = []
rstrip is_space (c ∷ s) = keep_char is_space c (rstrip is_space s)

-- `text.strip()`
abbrev pub strip : (ℕ → Bool) → Text → Text
strip is_space s = rstrip is_space (lstrip is_space s)
