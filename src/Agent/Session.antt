-- ===== src/Agent/Session.antt =====
-- What the loop of memgraphrag/agent/loop.py is given, keeps and yields.
use exeio_memgraphrag.Base.{
  ℕ, ℤ, zero, suc, List, [], ◌∷◌, ◌++◌, Bool, true, false, ◌||◌, Option, ite,
}
use exeio_memgraphrag.Text.Defs.{Text, Text-discrete, codes}
use exeio_memgraphrag.Text.Find.{has_text}
use exeio_memgraphrag.Pipeline.Index.{Attempt}
use exeio_memgraphrag.Agent.Budget.{Message, Call, Encoder, text}
use exeio_memgraphrag.Agent.References.{Backend, ToolBox, Reference}

pub data Reason : Type 0 where
  max_steps_reached answered : Reason

-- `AgentStop`
pub record AgentStop : Type 0 where
  pub reason : Reason
  pub steps : ℕ
  pub tool_calls : ℕ

-- What the loop yields.
pub data Frame : Type 0 where
  tool_call : Text → Text → ℕ → Frame
  references : List Reference → Frame
  token : Text → Frame
  final : Text → AgentStop → Frame

-- The variables of the loop, with the frames that it has yielded.
pub record AgentState : Type 0 where
  pub messages : List Message
  pub seen_calls : List Text
  pub references_sent : Bool
  pub steps : ℕ
  pub tool_calls : ℕ
  pub toolbox : ToolBox
  pub frames : List Frame

-- What a deciding turn asks for: its text and its calls.
pub record Turn : Type 0 where
  pub content : Text
  pub calls : List Call

-- The model: its deciding turn, from whether the call is forced, the bound on its tokens and the
-- messages; and the chunks of its answer, with what it raised behind them. The prompts: the messages
-- to begin with, and the two of the answer. The environment, as context_budget and decide_max_tokens
-- take it; the lists of models that are allowed and refused, in lower case.
pub record Setting : Type 0 where
  pub llm : Bool → ℤ → List Message → Attempt Turn
  pub llm_answer : Text → Text → List Text × Option Text
  pub opening : Text → List Message
  pub render_rag_qa : Text → List Text → List Text → Text × Text
  pub encoder : Encoder
  pub budget : Option ℤ
  pub decide_tokens : Option ℤ
  pub tool_models : List Text
  pub tool_deny : List Text
  pub is_word : ℕ → Bool
  pub backend : Backend

abbrev pub max_calls_per_turn : ℕ
max_calls_per_turn = 3

-- `items[:n]`
abbrev pub first_calls : ℕ → List Call → List Call
first_calls zero calls = []
first_calls (suc n) [] = []
first_calls (suc n) (call ∷ calls) = call ∷ first_calls n calls

abbrev pub incapable_markers : List Text
incapable_markers =
    codes "embed"
    ∷ codes "rerank"
    ∷ codes "whisper"
    ∷ codes "stable-diffusion"
    ∷ codes "flux"
    ∷ codes "dall-e"
    ∷ codes "tts"
    ∷ codes "guard"
    ∷ codes "moderation"
    ∷ []

unfoldable pub any_in : List Text → Text → Bool
unfolding has_text
any_in [] name = false
any_in (marker ∷ markers) name = has_text marker name || any_in markers name

abbrev pub unsupported : Text
unsupported = codes "AgentUnsupportedModelError"

abbrev pub seen : Text → List Text → Bool
seen key [] = false
seen key (k ∷ keys) = ite (Text-discrete k key) true (seen key keys)

abbrev pub say : Frame → AgentState → AgentState
say frame st = record st { frames = st.frames ++ frame ∷ [] }

abbrev pub tell : Message → AgentState → AgentState
tell message st = record st { messages = st.messages ++ message ∷ [] }

abbrev pub tool_message : Text → Message
tool_message t = record { role = codes "tool"; content = text t; tool_calls = [] }

abbrev pub repeated : Text
repeated =
    codes
      "You already ran this exact call. Use the passages you have, or search with different terms."

-- The references are sent once, as soon as there are some.
unfoldable pub send_found : List Reference → Bool → AgentState → AgentState
send_found [] sent st = st
send_found (r ∷ refs) true st = st
send_found (r ∷ refs) false st = say (references (r ∷ refs)) (record st { references_sent = true })

unfoldable pub send_references : AgentState → AgentState
unfolding send_found
send_references st = send_found st.toolbox.references st.references_sent st

-- The references behind the answer, empty where none were found; `sent` is whether they were sent.
abbrev pub closing : Bool → List Reference → List Frame
closing true refs = []
closing false refs = references refs ∷ []

-- `if visible: yield`
abbrev pub shown : Text → List Text
shown [] = []
shown (c ∷ visible) = (c ∷ visible) ∷ []

abbrev pub token_frames : List Text → List Frame
token_frames [] = []
token_frames (t ∷ ts) = token t ∷ token_frames ts
