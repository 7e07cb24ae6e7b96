-- ===== src/Agent/Counted.antt =====
-- Counts over the frames that the loop of memgraphrag/agent/loop.py yields.
use exeio_memgraphrag.Base.{
  ℕ, zero, suc, ◌+◌, ◌≤◌, List, [], ◌∷◌, ◌++◌, true, false, if◌then◌else◌, ite, ◌≡◌, refl, arith,
  length, ◌==◌, ltb,
}
use exeio_memgraphrag.Text.Defs.{Text, Text-discrete}
use exeio_memgraphrag.Agent.Budget.{Call}
use exeio_memgraphrag.Agent.References.{Reference}
use exeio_memgraphrag.Agent.Session.{
  Frame, tool_call, references, token, final, first_calls, seen, token_frames,
}

abbrev pub count_references : List Frame → ℕ
count_references [] = 0
count_references (references refs ∷ frames) = suc (count_references frames)
count_references (tool_call name arguments step ∷ frames) = count_references frames
count_references (token t ∷ frames) = count_references frames
count_references (final answer stop ∷ frames) = count_references frames

abbrev pub count_final : List Frame → ℕ
count_final [] = 0
count_final (final answer stop ∷ frames) = suc (count_final frames)
count_final (tool_call name arguments step ∷ frames) = count_final frames
count_final (references refs ∷ frames) = count_final frames
count_final (token t ∷ frames) = count_final frames

-- How many calls the frames of a step show.
abbrev pub count_step : ℕ → List Frame → ℕ
count_step k [] = 0
count_step k (tool_call name arguments step ∷ frames) =
    (if step == k then 1 else 0) + count_step k frames
count_step k (references refs ∷ frames) = count_step k frames
count_step k (token t ∷ frames) = count_step k frames
count_step k (final answer stop ∷ frames) = count_step k frames

-- Three calls at most are shown by each step before `step`, `n` by it, and none by a later one.
abbrev pub IsLimited : ℕ → ℕ → List Frame → Type 0
IsLimited step n frames =
    (k : ℕ) → count_step k frames ≤ (if k == step then n else if ltb k step then 3 else 0)

abbrev pub AllDistinct : List Text → Type 0
AllDistinct [] = Unit
AllDistinct (k ∷ keys) = (seen k keys ≡ false) × AllDistinct keys

pub count_references-append :
    (a b : List Frame) → count_references (a ++ b) ≡ count_references a + count_references b
count_references-append [] b = omega arith
count_references-append (references refs ∷ a) b = omega (arith, count_references-append a b)
count_references-append (tool_call name arguments step ∷ a) b = count_references-append a b
count_references-append (token t ∷ a) b = count_references-append a b
count_references-append (final answer stop ∷ a) b = count_references-append a b

pub count_final-append : (a b : List Frame) → count_final (a ++ b) ≡ count_final a + count_final b
count_final-append [] b = omega arith
count_final-append (final answer stop ∷ a) b = omega (arith, count_final-append a b)
count_final-append (tool_call name arguments step ∷ a) b = count_final-append a b
count_final-append (references refs ∷ a) b = count_final-append a b
count_final-append (token t ∷ a) b = count_final-append a b

pub count_step-append :
    (k : ℕ) (a b : List Frame) → count_step k (a ++ b) ≡ count_step k a + count_step k b
count_step-append k [] b = omega arith
count_step-append k (tool_call name arguments step ∷ a) b = omega (arith, count_step-append k a b)
count_step-append k (references refs ∷ a) b = count_step-append k a b
count_step-append k (token t ∷ a) b = count_step-append k a b
count_step-append k (final answer stop ∷ a) b = count_step-append k a b

pub IsLimited-le :
    (step n m : ℕ) (frames : List Frame) → n ≤ m → IsLimited step n frames → IsLimited step m frames
IsLimited-le step n m frames le limited k = ground (arith, le, limited k)

-- One more call.
pub IsLimited-snoc :
    (step n : ℕ) (name arguments : Text) (frames : List Frame)
    → IsLimited step n frames
    → IsLimited step (suc n) (frames ++ tool_call name arguments step ∷ [])
IsLimited-snoc step n name arguments frames limited k =
    ground (arith, limited k, count_step-append k frames (tool_call name arguments step ∷ []))

pub IsLimited-references :
    (step n : ℕ) (refs : List Reference) (frames : List Frame)
    → IsLimited step n frames
    → IsLimited step n (frames ++ references refs ∷ [])
IsLimited-references step n refs frames limited k =
    ground (arith, limited k, count_step-append k frames (references refs ∷ []))

seen-snoc :
    (k j : Text) (keys : List Text)
    → seen k (keys ++ j ∷ []) ≡ ite (Text-discrete j k) true (seen k keys)
seen-snoc k j [] = refl
seen-snoc k j (i ∷ keys) = ground (arith, seen-snoc k j keys)

pub AllDistinct-snoc :
    (k : Text) (keys : List Text)
    → AllDistinct keys
    → seen k keys ≡ false
    → AllDistinct (keys ++ k ∷ [])
AllDistinct-snoc k [] d new = (refl, tt)
AllDistinct-snoc k (j ∷ keys) (other, d) new = (
  ground (arith, seen-snoc j k keys, other, new),
  AllDistinct-snoc k keys d (ground (arith, new)),
)

pub count_references-tokens : (ts : List Text) → count_references (token_frames ts) ≡ 0
count_references-tokens [] = refl
count_references-tokens (t ∷ ts) = count_references-tokens ts

pub count_final-tokens : (ts : List Text) → count_final (token_frames ts) ≡ 0
count_final-tokens [] = refl
count_final-tokens (t ∷ ts) = count_final-tokens ts

pub length-first_calls : (n : ℕ) (calls : List Call) → length (first_calls n calls) ≤ n
length-first_calls zero calls = omega arith
length-first_calls (suc n) [] = omega arith
length-first_calls (suc n) (call ∷ calls) = omega (arith, length-first_calls n calls)
