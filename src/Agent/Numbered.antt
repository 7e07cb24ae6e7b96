-- ===== src/Agent/Numbered.antt =====
-- The passages and the references that the tools of memgraphrag/agent/tools.py collect, and the
-- parameters of their searches.
use exeio_memgraphrag.Base.{
  ℕ, ℤ, pos, negsuc, zero, suc, ◌≤◌, List, [], ◌∷◌, ◌++◌, false, ◌≡◌, ◌≢◌, refl, ap, arith, length,
  some, ◌⊎◌, inl, inr, ltb, Bool-cases,
}
use exeio_memgraphrag.Text.Defs.{Text, codes, strip}
use exeio_memgraphrag.Pipeline.Index.{Attempt, done, failure}
use exeio_memgraphrag.Agent.Fence.{decimal}
use exeio_memgraphrag.Agent.Tools.{
  clamp_top_k, chosen_top_k, replace_param, derive_param, overflow_error, parse_arguments,
}
use exeio_memgraphrag.Agent.References.{
  QuerySolution, Reference, QueryParam, Arguments, TopK, not_given, refused, infinite, number, ppr,
  ToolResult, ToolBox, Backend,
}

-- The references are numbered one after the other, from `start`.
abbrev pub AllNumbered : ℕ → List Reference → Type 0
AllNumbered start [] = Unit
AllNumbered start (r ∷ refs) = (r.reference_id ≡ decimal start) × AllNumbered (suc start) refs

-- A reference for each passage, from 1 on, and the number that the next passage gets.
pub record IsNumbered (box : ToolBox) : Type 0 where
  pub next : box.fence_start ≡ suc (length box.docs)
  pub each : length box.references ≡ length box.docs
  pub numbered : AllNumbered 1 box.references

-- The call searches, and the engine gives the solution first.
pub record Finds (backend : Backend) (name raw_arguments : Text) (s : QuerySolution) : Type 0 where
  pub arguments : Arguments
  pub param : QueryParam
  pub others : List QuerySolution
  pub named : name ≡ codes "retrieve"
  pub parsed : parse_arguments backend raw_arguments ≡ some arguments
  pub query : strip backend.is_space arguments.query ≢ []
  pub derived : derive_param backend.base arguments ≡ done param
  pub found : backend.aretrieve (strip backend.is_space arguments.query) param ≡ done (s ∷ others)

-- The call searches for an infinite number of passages.
pub record Overflows (backend : Backend) (name raw_arguments : Text) : Type 0 where
  pub arguments : Arguments
  pub named : name ≡ codes "retrieve"
  pub parsed : parse_arguments backend raw_arguments ≡ some arguments
  pub query : strip backend.is_space arguments.query ≢ []
  pub top_k : arguments.top_k ≡ infinite

module _ (backend : Backend) where
  open backend use {is_space, aretrieve, base}

  -- A box is numbered, and its passages are those of the one before it and those given.
  abbrev IsNext : List Text → ToolBox → ToolBox → Type 0
  IsNext docs box box' = IsNumbered box' × (box'.docs ≡ box.docs ++ docs)

  -- What a call is to end in: an exception only for an infinite `top_k`; behind a search with a
  -- solution its passages; and the same box where there is no solution.
  abbrev pub IsRun : Text → Text → ToolBox → Attempt (ToolResult × ToolBox) → Type 0
  IsRun name raw_arguments box (failure message) =
      Overflows backend name raw_arguments × (message ≡ overflow_error)
  IsRun name raw_arguments box (done (result, box')) =
      IsNumbered box'
      × (((s : QuerySolution) × Finds backend name raw_arguments s
            × (box'.docs ≡ box.docs ++ s.docs))
          ⊎ ((box' ≡ box) × ((s : QuerySolution) → ¬ Finds backend name raw_arguments s)))

-- The number from 1 to 30 that is nearest.
abbrev pub IsNearest : ℤ → ℕ → Type 0
IsNearest (negsuc m) n = n ≡ 1
IsNearest (pos m) n = ((m ≡ 0) × (n ≡ 1)) ⊎ ((1 ≤ m) × (m ≤ 30) × (n ≡ m)) ⊎ ((30 ≤ m) × (n ≡ 30))

clamp_top_k-IsNearest : (k : ℤ) → (n : ℕ) × (clamp_top_k k ≡ pos n) × IsNearest k n
unfolding clamp_top_k
clamp_top_k-IsNearest (negsuc n) = (1, refl, refl)
clamp_top_k-IsNearest (pos zero) = (1, refl, inl (refl, refl))
clamp_top_k-IsNearest (pos (suc m)) = elim (Bool-cases (ltb m 30)) [
  | inl small ↦
      (suc m, ap pos (ground (arith, small)), inr (inl (omega arith, ground (arith, small), refl)))
  | inr large ↦ (30, ap pos (ground (arith, large)), inr (inr (ground (arith, large), refl)))
]

-- The parameters of a search are those of the request with `size` passages, nothing streamed and no
-- conversation handed on.
abbrev pub sized : QueryParam → ℤ → QueryParam
sized base size = record base {
  mode = ppr;
  top_k = size;
  stream = false;
  conversation_history = [];
}

abbrev pub IsDerived : QueryParam → TopK → Attempt QueryParam → Type 0
IsDerived base not_given r = r ≡ done (sized base base.top_k)
IsDerived base refused r = r ≡ done (sized base base.top_k)
IsDerived base infinite r = r ≡ failure overflow_error
IsDerived base (number k) r = (n : ℕ) × (r ≡ done (sized base (pos n))) × IsNearest k n

replace_param-IsDerived :
    (base : QueryParam) (t : TopK)
    → IsDerived base t (replace_param base (chosen_top_k t base.top_k))
unfolding replace_param chosen_top_k
replace_param-IsDerived base not_given = refl
replace_param-IsDerived base refused = refl
replace_param-IsDerived base infinite = refl
replace_param-IsDerived base (number k) =
    let (n, clamped, nearest) = clamp_top_k-IsNearest k in
    (n, ap (λ size. done (sized base size)) clamped, nearest)

-- Of a search that asks for a number of passages the size is the nearest number from 1 to 30, so the
-- number itself where that is in the range; where it gives no number or one that cannot be read, the
-- size is that of the request; an infinite number raises an OverflowError. All else is the request's,
-- but the mode is set, nothing is streamed and the conversation is not handed on.
pub derive_param-bounds :
    (base : QueryParam) (arguments : Arguments)
    → IsDerived base arguments.top_k (derive_param base arguments)
unfolding derive_param
derive_param-bounds base arguments = replace_param-IsDerived base arguments.top_k
