-- ===== src/Agent/Budget.antt =====
-- memgraphrag/agent/budget.py: the tokens of a list of messages, and the eviction of old tool
-- results. The messages of the list are taken to be distinct objects, so that a write to one is a
-- write to that position of the list only.
use exeio_memgraphrag.Base.{
  ℕ, ℤ, pos, negsuc, List, [], ◌∷◌, ◌++◌, ◌+◌, ◌/◌, Bool, true, false, if◌then◌else◌, leb, length,
  none, some, Option, ite,
}
use exeio_memgraphrag.Text.Defs.{Text, Text-discrete, codes}

-- `message["content"]`
pub data Content : Type 0 where
  -- missing, or an object that counts as false
  absent : Content
  text : Text → Content
  -- any other object, by its `str`
  other : Text → Content

-- An entry of `tool_calls`: the name and the arguments, empty where they are missing.
pub record Call : Type 0 where
  pub name : Text
  pub arguments : Text

pub record Message : Type 0 where
  pub role : Text
  pub content : Content
  pub tool_calls : List Call

pub record BudgetReport : Type 0 where
  pub tokens_before : ℕ
  pub tokens_after : ℕ
  pub evicted : ℕ

unfoldable pub evicted_text : Text
evicted_text = codes "[Earlier tool result dropped to stay inside the context window.]"

abbrev pub default_context_budget : ℤ
default_context_budget = pos 24000

abbrev pub default_decide_max_tokens : ℤ
default_decide_max_tokens = pos 256

-- `context_budget`, from what the environment gives for AGENT_CONTEXT_BUDGET
abbrev pub context_budget : Option ℤ → ℤ
context_budget none = default_context_budget
context_budget (some b) = b

-- `decide_max_tokens`, from what the environment gives for AGENT_DECIDE_MAX_TOKENS
unfoldable pub at_least_32 : ℤ → ℤ
at_least_32 (negsuc _) = pos 32
at_least_32 (pos n) = if leb 32 n then pos n else pos 32

unfoldable pub decide_max_tokens : Option ℤ → ℤ
unfolding at_least_32
decide_max_tokens none = at_least_32 default_decide_max_tokens
decide_max_tokens (some n) = at_least_32 n

-- `BudgetReport.applied`
abbrev pub applied : BudgetReport → Bool
applied r = leb 1 r.evicted

unfoldable pub text_of : Content → Text
text_of absent = []
text_of (text t) = t
text_of (other s) = s

unfoldable pub call_texts : List Call → Text
call_texts [] = []
call_texts (call ∷ calls) = call.name ++ call.arguments ++ call_texts calls

unfoldable pub message_text : Message → Text
unfolding text_of call_texts
message_text m = text_of m.content ++ call_texts m.tool_calls

unfoldable pub is_tool : Message → Bool
is_tool m = ite (Text-discrete m.role (codes "tool")) true false

unfoldable pub has_evicted_text : Content → Bool
has_evicted_text (text t) = ite (Text-discrete t evicted_text) true false
has_evicted_text absent = false
has_evicted_text (other _) = false

-- `count <= ceiling`
abbrev pub fits : ℕ → ℤ → Bool
fits n (pos ceiling) = leb n ceiling
fits n (negsuc _) = false

-- The tokenizer: `none` is the one that is not installed; `encode` gives the number of tokens, and
-- `none` where it raises.
abbrev pub Encoder : Type 0
Encoder = Option (Text → Option ℕ)

module _ (encoder : Encoder) where
  unfoldable pub message_tokens : Text → ℕ
  message_tokens t = elim encoder [
    | none ↦ length t / 4 + 4
    | some encode ↦ elim (encode t) [ none ↦ length t / 4 + 4 | some n ↦ n + 4 ]
  ]

  unfoldable pub count_tokens : List Message → ℕ
  unfolding message_tokens message_text
  count_tokens [] = 0
  count_tokens (m ∷ messages) = message_tokens (message_text m) + count_tokens messages

  -- The loop over the messages. Those before the one it has come to are `seen`; the result is the
  -- list after it, and the number of messages whose content it wrote.
  unfoldable pub evict_from : ℤ → List Message → List Message → ℕ → List Message × ℕ
  unfolding count_tokens is_tool has_evicted_text evicted_text Text-discrete
  evict_from ceiling seen [] evicted = (seen, evicted)
  evict_from ceiling seen (m ∷ messages) evicted =
      let pass = evict_from ceiling (seen ++ m ∷ []) messages in
      let write =
        evict_from ceiling (seen ++ (record m { content = text evicted_text }) ∷ []) messages in
      if fits (count_tokens (seen ++ m ∷ messages)) ceiling
      then (seen ++ m ∷ messages, evicted)
      else if is_tool m
      then (if has_evicted_text m.content then pass evicted else write (evicted + 1))
      else pass evicted

  -- The messages after the call, and the report.
  unfoldable pub enforce : List Message → ℤ → List Message × BudgetReport
  unfolding evict_from count_tokens
  enforce messages ceiling =
      let before = count_tokens messages in
      let (after, evicted) = evict_from ceiling [] messages 0 in
      if fits before ceiling
      then (messages, record { tokens_before = before; tokens_after = before; evicted = 0 })
      else (
        after,
        record { tokens_before = before; tokens_after = count_tokens after; evicted = evicted },
      )
