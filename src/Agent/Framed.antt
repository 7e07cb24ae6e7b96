-- ===== src/Agent/Framed.antt =====
-- What a whole run of memgraphrag/agent/loop.py yields.
use exeio_memgraphrag.Base.{
  ℕ, ◌+◌, List, [], ◌∷◌, ◌++◌, Bool, true, false, if◌then◌else◌, Option, none, some, ◌≡◌, refl, sym,
  ap, ◌∙◌, subst, arith, length, append-nil, append_assoc,
}
use exeio_memgraphrag.Text.Defs.{Text}
use exeio_memgraphrag.Text.Find.{concat}
use exeio_memgraphrag.Pipeline.Index.{Attempt, done, failure}
use exeio_memgraphrag.Agent.Harmony.{HarmonyFilter, new_filter, feed, flush, stream}
use exeio_memgraphrag.Agent.References.{ToolBox, Reference}
use exeio_memgraphrag.Agent.Loop.{
  run_steps, visible_tokens, interrupted_tokens, give_answer, finish_agent, answer_prompt,
  precheck_model, starting, run_checked, run_agent,
}
use exeio_memgraphrag.Agent.Session.{
  Reason, AgentStop, Frame, final, AgentState, Setting, shown, closing, token_frames,
}
use exeio_memgraphrag.Agent.Counted.{
  count_references, count_final, AllDistinct, count_references-append, count_final-append,
  count_final-tokens, count_step,
}
use exeio_memgraphrag.Agent.Looped.{keys_of, keys_of-append, keys_of-tokens, IsOrderly}
use exeio_memgraphrag.Agent.Stepped.{
  AllWithin, AllWithin-append, AllWithin-le, IsStopped, IsBounded, IsEnded-le, at_start,
  run_steps-IsBounded,
}

concat-append : (a b : List Text) → concat (a ++ b) ≡ concat a ++ concat b
concat-append [] b = refl
concat-append (t ∷ a) b =
    ap (λ s. t ++ s) (concat-append a b) ∙ sym (append_assoc t (concat a) (concat b))

concat-shown : (t : Text) → concat (shown t) ≡ t
concat-shown [] = refl
concat-shown (c ∷ t) = append-nil (c ∷ t)

count-closing :
    (tokens : List Text) (sent : Bool) (refs : List Reference)
    → (count_final (token_frames tokens ++ closing sent refs) ≡ 0)
      × ((if sent then 1 else 0) + count_references (token_frames tokens ++ closing sent refs) ≡ 1)
count-closing [] true refs = (refl, refl)
count-closing [] false refs = (refl, refl)
count-closing (t ∷ tokens) sent refs = count-closing tokens sent refs

count_step-tokens : (k : ℕ) (tokens : List Text) → count_step k (token_frames tokens) ≡ 0
count_step-tokens k [] = refl
count_step-tokens k (t ∷ tokens) = count_step-tokens k tokens

count_step-closing :
    (k : ℕ) (tokens : List Text) (sent : Bool) (refs : List Reference)
    → count_step k (token_frames tokens ++ closing sent refs) ≡ 0
count_step-closing k [] true refs = refl
count_step-closing k [] false refs = refl
count_step-closing k (t ∷ tokens) sent refs = count_step-closing k tokens sent refs

module _ (setting : Setting) where
  open setting use {backend}

  -- The tokens of an answer that is not cut short are together what the filter lets through of the
  -- model's chunks, however many tokens there are.
  pub concat-visible_tokens :
      (f : HarmonyFilter) (chunks : List Text)
      → concat (visible_tokens setting f chunks) ≡ stream backend.is_space setting.is_word f chunks
  unfolding visible_tokens stream
  concat-visible_tokens f [] = concat-shown (flush backend.is_space setting.is_word f).1
  concat-visible_tokens f (chunk ∷ chunks) =
      let (f', visible) = feed backend.is_space setting.is_word f chunk in
      concat-append (shown visible) (visible_tokens setting f' chunks)
      ∙ ap (λ s. s ++ concat (visible_tokens setting f' chunks)) (concat-shown visible)
      ∙ ap (λ s. visible ++ s) (concat-visible_tokens f' chunks)

  -- The frames of a run that returns: the last is the only one of its kind, before it come the
  -- references, once, and the calls that it counts, three at most for each of the steps that it
  -- counts.
  abbrev pub IsComplete : AgentState → ℕ → List Frame → Type 0
  IsComplete first bound frames =
      (front : List Frame) × (answer : Text) × (stop : AgentStop) × (frames
        ≡ front ++ final answer stop ∷ [])
      × (count_final front ≡ 0)
      × (count_references front ≡ 1)
      × (stop.tool_calls ≡ length (keys_of setting front))
      × AllWithin stop.steps front
      × IsStopped setting first bound stop.reason stop.steps

  abbrev pub IsAnswered : AgentState → ℕ → List Frame × Attempt Unit → Type 0
  IsAnswered first bound (frames, done _) =
      AllDistinct (keys_of setting frames) × IsComplete first bound frames
  IsAnswered first bound (frames, failure message) =
      AllDistinct (keys_of setting frames) × AllWithin bound frames × (count_final frames ≡ 0)

  -- Frames that show no further call.
  keys_of-more :
      (st : AgentState) (more : List Frame)
      → IsOrderly setting st
      → keys_of setting more ≡ []
      → keys_of setting (st.frames ++ more) ≡ st.seen_calls
  keys_of-more st more o quiet =
      keys_of-append setting st.frames more
      ∙ ap (λ ks. keys_of setting st.frames ++ ks) quiet
      ∙ append-nil (keys_of setting st.frames)
      ∙ o.called

  -- What a closing adds.
  keys_of-closing :
      (tokens : List Text) (sent : Bool) (refs : List Reference)
      → keys_of setting (token_frames tokens ++ closing sent refs) ≡ []
  keys_of-closing [] true refs = refl
  keys_of-closing [] false refs = refl
  keys_of-closing (t ∷ tokens) sent refs = keys_of-closing tokens sent refs

  module _ (first : AgentState) (bound : ℕ) where
    give_answer-IsAnswered :
        (reason : Reason) (st : AgentState) (chunks : List Text) (raised : Option Text)
        → IsBounded setting first bound (st, done reason)
        → IsAnswered first bound (give_answer setting reason st chunks raised)
    unfolding give_answer
    give_answer-IsAnswered reason st chunks (some message) b =
        let tokens = interrupted_tokens setting new_filter chunks in
        let keys =
          keys_of-more st (token_frames tokens) b.orderly (keys_of-tokens setting tokens) in
        (
          subst AllDistinct (sym keys) b.orderly.distinct,
          AllWithin-append bound st.frames (token_frames tokens) (λ k. count_step-tokens k tokens)
              (AllWithin-le st.steps bound st.frames
                (IsEnded-le setting first bound st (done reason) b.ended) b.within),
          count_final-append st.frames (token_frames tokens)
              ∙ omega (arith, b.orderly.running, count_final-tokens tokens),
        )
    give_answer-IsAnswered reason st chunks none b =
        let tokens = visible_tokens setting new_filter chunks in
        let refs = st.toolbox.references in
        let more = token_frames tokens ++ closing st.references_sent refs in
        let keys =
          keys_of-more st more b.orderly (keys_of-closing tokens st.references_sent refs) in
        let (no_final, once) = count-closing tokens st.references_sent refs in
        let stop : AgentStop = record {
          reason = reason;
          steps = st.steps;
          tool_calls = st.tool_calls;
        } in
        let whole =
          keys_of-append setting (st.frames ++ more) (final (concat tokens) stop ∷ [])
          ∙ append-nil (keys_of setting (st.frames ++ more))
          ∙ keys in
        (
          subst AllDistinct (sym whole) b.orderly.distinct,
          (
            st.frames ++ more,
            concat tokens,
            stop,
            refl,
            count_final-append st.frames more ∙ omega (arith, b.orderly.running, no_final),
            count_references-append st.frames more ∙ omega (arith, b.orderly.sent, once),
            b.counted ∙ sym (ap length keys),
            AllWithin-append st.steps st.frames more
                (λ k. count_step-closing k tokens st.references_sent refs) b.within,
            b.ended,
          ),
        )

    finish_agent-IsAnswered :
        (question : Text) (r : AgentState × Attempt Reason)
        → IsBounded setting first bound r
        → IsAnswered first bound (finish_agent setting question r)
    unfolding finish_agent
    finish_agent-IsAnswered question (st, failure message) b = (
      subst AllDistinct (sym b.orderly.called) b.orderly.distinct,
      AllWithin-le st.steps bound st.frames b.ended b.within,
      b.orderly.running,
    )
    finish_agent-IsAnswered question (st, done reason) b =
        let (system, user) = answer_prompt setting question reason st in
        let (chunks, raised) = setting.llm_answer system user in
        give_answer-IsAnswered reason st chunks raised b

  run_checked-IsAnswered :
      (checked : Attempt Unit) (question : Text) (toolbox : ToolBox) (max_steps : ℕ)
      → IsAnswered
          (starting setting question toolbox)
          max_steps
          (run_checked setting checked question toolbox max_steps)
  unfolding run_checked
  run_checked-IsAnswered (failure message) question toolbox max_steps = (tt, λ k. omega arith, refl)
  run_checked-IsAnswered (done _) question toolbox max_steps =
      let start = starting setting question toolbox in
      let o : IsOrderly setting start = record {
        called = refl;
        distinct = tt;
        sent = refl;
        running = refl;
      } in
      finish_agent-IsAnswered start max_steps question (run_steps setting max_steps 0 start) (
        subst (λ n. IsBounded setting start n (run_steps setting max_steps 0 start)) (omega arith)
          (run_steps-IsBounded setting start max_steps 0 start o (λ k. omega arith) refl refl
            at_start))

  -- Each call of a tool that a run shows has another name or other arguments than those before, and
  -- no step shows more than three. A run that returns ends in the one frame with the answer; it
  -- sends the references once before, and that frame counts the calls that were shown and the
  -- steps: as many as are allowed, where the model asked for tools in each of them; or, where it
  -- ended with an answer, those in which it asked for tools, one at least, and the one behind them
  -- in which it asked for none. A run that raises sends no such frame.
  pub run_agent-IsAnswered :
      (question model : Text) (toolbox : ToolBox) (max_steps : ℕ)
      → IsAnswered
          (starting setting question toolbox)
          max_steps
          (run_agent setting question model toolbox max_steps)
  unfolding run_agent
  run_agent-IsAnswered question model toolbox max_steps =
      run_checked-IsAnswered (precheck_model setting model) question toolbox max_steps
