-- ===== src/Agent/Loop.antt =====
-- memgraphrag/agent/loop.py and memgraphrag/agent/capabilities.py: the loop that calls the tools and
-- then answers. The model, the prompts and the environment are parameters; the identifiers of calls,
-- the traces and the log are left out.
use exeio_memgraphrag.Base.{
  ℕ, zero, suc, List, [], ◌∷◌, ◌++◌, false, if◌then◌else◌, ◌==◌, Option, none, some,
}
use exeio_memgraphrag.Text.Defs.{Text, Text-discrete, codes, strip, lstrip, rstrip}
use exeio_memgraphrag.Text.Find.{concat}
use exeio_memgraphrag.Pipeline.Index.{Attempt, done, failure}
use exeio_memgraphrag.Agent.Budget.{Call, text, enforce, context_budget, decide_max_tokens}
use exeio_memgraphrag.Agent.Harmony.{HarmonyFilter, new_filter, feed, flush}
use exeio_memgraphrag.Agent.Tools.{run_tool}
use exeio_memgraphrag.Agent.References.{ToolBox, ToolResult}
use exeio_memgraphrag.Agent.Session.{
  AgentState, AgentStop, Frame, Reason, Setting, Turn, answered, any_in, closing, final,
  first_calls, incapable_markers, max_calls_per_turn, max_steps_reached, repeated, say, seen,
  send_references, shown, tell, token_frames, tool_call, tool_message, unsupported,
}

-- An exception ends the generator, with the frames that were yielded before it.
abbrev pub go_on :
    {A : Type 0}
    → AgentState × Attempt Unit
    → (AgentState → AgentState × Attempt A)
    → AgentState × Attempt A
go_on (st, failure message) rest = (st, failure message)
go_on (st, done _) rest = rest st

-- Behind a call that was shown: what the tool gave, if it did not raise.
unfoldable pub finish_call : AgentState → Attempt (ToolResult × ToolBox) → AgentState × Attempt Unit
finish_call st (failure message) = (st, failure message)
finish_call st (done (result, box)) = (
  tell (tool_message result.text) (record st { tool_calls = suc st.tool_calls; toolbox = box }),
  done tt,
)

module _ (setting : Setting) where
  open setting use {llm, llm_answer, encoder, backend}

  -- The lists of the model's name in lower case; an empty name is no name.
  unfoldable pub precheck_model : Text → Attempt Unit
  unfolding any_in
  precheck_model [] = done tt
  precheck_model (c ∷ name) = elim setting.tool_models [
    | m ∷ models ↦ if any_in (m ∷ models) (c ∷ name) then done tt else failure unsupported
    | [] ↦
        if any_in (incapable_markers ++ setting.tool_deny) (c ∷ name)
        then failure unsupported
        else done tt
  ]

  unfoldable pub tool_call_key : Call → Text
  unfolding lstrip rstrip
  tool_call_key call = call.name ++ codes "::" ++ strip backend.is_space call.arguments

  -- A call that was not run before.
  unfoldable pub run_new_call : ℕ → Call → AgentState → AgentState × Attempt Unit
  unfolding tool_call_key finish_call run_tool
  run_new_call step call st =
      finish_call
        (record (say (tool_call call.name call.arguments step) st) {
          seen_calls = st.seen_calls ++ tool_call_key call ∷ [];
        })
        (run_tool backend call.name call.arguments st.toolbox)

  unfoldable pub run_call : ℕ → Call → AgentState → AgentState × Attempt Unit
  unfolding run_new_call tool_call_key Text-discrete
  run_call step call st =
      if seen (tool_call_key call) st.seen_calls
      then (tell (tool_message repeated) st, done tt)
      else run_new_call step call st

  unfoldable pub run_calls : ℕ → List Call → AgentState → AgentState × Attempt Unit
  unfolding run_call
  run_calls step [] st = (st, done tt)
  run_calls step (call ∷ calls) st = go_on (run_call step call st) (run_calls step calls)

  -- A turn that asks for tools.
  unfoldable pub act : ℕ → Turn → AgentState → AgentState × Attempt Unit
  unfolding run_calls send_references
  act step turn st =
      go_on
        (run_calls step (first_calls max_calls_per_turn turn.calls) (
          tell
            (record {
              role = codes "assistant";
              content = text turn.content;
              tool_calls = turn.calls;
            })
            st))
        (λ st'. (send_references st', done tt))

  -- The begin of a step: the messages are brought into the budget.
  unfoldable pub begin_step : ℕ → AgentState → AgentState
  unfolding enforce
  begin_step step st = record st {
    steps = suc step;
    messages = (enforce encoder st.messages (context_budget setting.budget)).0;
  }

  unfoldable pub decide_turn : ℕ → AgentState → Attempt Turn
  unfolding decide_max_tokens
  decide_turn step st = llm (step == 0) (decide_max_tokens setting.decide_tokens) st.messages

  -- A turn with no calls: on the first step the call was forced.
  unfoldable pub without_calls : ℕ → Attempt Reason
  without_calls zero = failure unsupported
  without_calls (suc step) = done answered

  -- What becomes of a step: a turn without calls ends the loop, else `rest` goes on.
  unfoldable pub follow_calls :
      ℕ → List Call → AgentState → AgentState × Attempt Reason → AgentState × Attempt Reason
  unfolding without_calls
  follow_calls step [] begun rest = (begun, without_calls step)
  follow_calls step (call ∷ calls) begun rest = rest

  unfoldable pub follow_turn :
      ℕ
      → Attempt Turn
      → AgentState
      → (AgentState → AgentState × Attempt Reason)
      → AgentState × Attempt Reason
  unfolding follow_calls act
  follow_turn step (failure message) begun rest = (begun, failure message)
  follow_turn step (done turn) begun rest =
      follow_calls step turn.calls begun (go_on (act step turn begun) rest)

  -- The steps that are left, from `step` on.
  unfoldable pub run_steps : ℕ → ℕ → AgentState → AgentState × Attempt Reason
  unfolding begin_step decide_turn follow_turn
  run_steps zero step st = (st, done max_steps_reached)
  run_steps (suc left) step st =
      let begun = begin_step step st in
      follow_turn step (decide_turn step begun) begun (run_steps left (suc step))

  -- What the user sees of the chunks of an answer.
  unfoldable pub visible_tokens : HarmonyFilter → List Text → List Text
  unfolding feed flush
  visible_tokens f [] = shown (flush backend.is_space setting.is_word f).1
  visible_tokens f (chunk ∷ chunks) =
      let (f', visible) = feed backend.is_space setting.is_word f chunk in
      shown visible ++ visible_tokens f' chunks

  -- The same for chunks behind which the model raises: there is no flush.
  unfoldable pub interrupted_tokens : HarmonyFilter → List Text → List Text
  unfolding feed
  interrupted_tokens f [] = []
  interrupted_tokens f (chunk ∷ chunks) =
      let (f', visible) = feed backend.is_space setting.is_word f chunk in
      shown visible ++ interrupted_tokens f' chunks

  abbrev pub partial_notice : Text
  partial_notice =
      codes
        "\n\nAnswer with these passages only. Say plainly if they are not enough to answer fully."

  unfoldable pub answer_prompt : Text → Reason → AgentState → Text × Text
  answer_prompt question reason st =
      let (system, user) = setting.render_rag_qa question st.toolbox.docs st.toolbox.sources in
      elim reason [
        | max_steps_reached ↦ (system, user ++ partial_notice)
        | answered ↦ (system, user)
      ]

  -- The answer, its references and the last frame.
  unfoldable pub give_answer :
      Reason → AgentState → List Text → Option Text → List Frame × Attempt Unit
  unfolding visible_tokens interrupted_tokens
  give_answer reason st chunks (some message) =
      (st.frames ++ token_frames (interrupted_tokens new_filter chunks), failure message)
  give_answer reason st chunks none =
      let tokens = visible_tokens new_filter chunks in
      let stop : AgentStop = record {
        reason = reason;
        steps = st.steps;
        tool_calls = st.tool_calls;
      } in
      (
        (st.frames ++ (token_frames tokens ++ closing st.references_sent st.toolbox.references))
            ++ final (concat tokens) stop ∷ [],
        done tt,
      )

  unfoldable pub finish_agent : Text → AgentState × Attempt Reason → List Frame × Attempt Unit
  unfolding answer_prompt give_answer
  finish_agent question (st, failure message) = (st.frames, failure message)
  finish_agent question (st, done reason) =
      let (system, user) = answer_prompt question reason st in
      let (chunks, raised) = llm_answer system user in give_answer reason st chunks raised

  abbrev pub starting : Text → ToolBox → AgentState
  starting question toolbox = record {
    messages = setting.opening question;
    seen_calls = [];
    references_sent = false;
    steps = 0;
    tool_calls = 0;
    toolbox = toolbox;
    frames = [];
  }

  -- Behind the check of the model.
  unfoldable pub run_checked : Attempt Unit → Text → ToolBox → ℕ → List Frame × Attempt Unit
  unfolding finish_agent run_steps
  run_checked (failure message) question toolbox max_steps = ([], failure message)
  run_checked (done _) question toolbox max_steps =
      finish_agent question (run_steps max_steps 0 (starting question toolbox))

  -- The frames that are yielded, and how the generator ends.
  unfoldable pub run_agent : Text → Text → ToolBox → ℕ → List Frame × Attempt Unit
  unfolding precheck_model run_checked
  run_agent question model toolbox max_steps =
      run_checked (precheck_model model) question toolbox max_steps
