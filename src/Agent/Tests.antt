-- ===== src/Agent/Tests.antt =====
-- A conversation over its budget.
use Prim.Native.String.{String}
use exeio_memgraphrag.Base.{
  ℕ, Bool, leb, ◌==◌, pos, List, [], ◌∷◌, none, some, ◌≡◌, refl, map, ℕ_discrete,
}
use exeio_memgraphrag.Text.Defs.{Text, codes, Text-discrete}
use exeio_memgraphrag.Agent.Budget.{
  Message, Encoder, absent, text, evicted_text, count_tokens, enforce, is_tool,
}
use exeio_memgraphrag.Text.Find.{find, has_text, concat}
use exeio_memgraphrag.Agent.Harmony.{
  stream, new_filter, untagged_open, opens_with, tagged, untagged,
}
use exeio_memgraphrag.Agent.Streamed.{final_channel}
use exeio_memgraphrag.Agent.Decided.{stream-plain, stream-tagged, stream-untagged}
use exeio_memgraphrag.Agent.Evicted.{
  IsEviction, enforce-IsEviction, conversation, enforce-conversation,
}

abbrev message : String → String → Message
message role content = record { role = codes role; content = text (codes content); tool_calls = [] }

abbrev words : Encoder
words = some (λ t. some 20)

abbrev talk : List Message
talk =
    message "user" "Who?"
    ∷ (record (message "assistant" "") {
      content = absent;
      tool_calls = record { name = codes "retrieve"; arguments = codes "{}" } ∷ [];
    })
    ∷ message "tool" "A long passage, of more characters than the line that replaces it has in all."
    ∷ message "tool" "A short passage."
    ∷ []

talk_budget :
    let (after, report) = enforce none talk (pos 40) in
    (map is_tool after ≡ map is_tool talk) × (report.evicted ≡ 1) × (report.tokens_before ≡ 42)
unfolding enforce is_tool evicted_text count_tokens Text-discrete ℕ_discrete
talk_budget = (refl, refl, refl)

enforce-IsEviction_example :
    let (after, report) = enforce words talk (pos 50) in
    IsEviction words (pos 50) talk after report.evicted
    × (report.tokens_before ≡ count_tokens words talk)
    × (report.tokens_after ≡ count_tokens words after)
enforce-IsEviction_example = enforce-IsEviction words (pos 50) talk

enforce-conversation_example :
    map conversation (enforce none talk (pos 40)).0 ≡ map conversation talk
enforce-conversation_example = enforce-conversation none talk (pos 40)

abbrev space : ℕ → Bool
space c = c == 32

abbrev word : ℕ → Bool
word c = leb 97 c

abbrev plain_chunks : List Text
plain_chunks = codes "An answer, 1 <" ∷ codes " 2 and 3 < 4." ∷ []

abbrev tagged_chunks : List Text
tagged_chunks =
    codes "<"
    ∷ codes "|channel|>analysis<|message|>Hm<|end|><|channel|>fin"
    ∷ codes "al<|message|>Yes<"
    ∷ codes "|return|>"
    ∷ []

abbrev untagged_chunks : List Text
untagged_chunks = codes "analy" ∷ codes "sisHm. assis" ∷ codes "tantfinalYes" ∷ []

tagged_answer : final_channel space word tagged (concat tagged_chunks) ≡ codes "Yes"
unfolding find
tagged_answer = refl

untagged_answer : final_channel space word untagged (concat untagged_chunks) ≡ codes "Yes"
unfolding find
untagged_answer = refl

stream-plain_example : stream space word new_filter plain_chunks ≡ concat plain_chunks
unfolding find has_text opens_with untagged_open
stream-plain_example = stream-plain space word plain_chunks refl refl

stream-tagged_example :
    stream space word new_filter tagged_chunks
    ≡ final_channel space word tagged (concat tagged_chunks)
stream-tagged_example = stream-tagged space word tagged_chunks refl

stream-untagged_example :
    stream space word new_filter untagged_chunks
    ≡ final_channel space word untagged (concat untagged_chunks)
unfolding find has_text opens_with untagged_open
stream-untagged_example = stream-untagged space word untagged_chunks refl refl
