-- ===== src/Agent/Looped.antt =====
-- The calls of one step of memgraphrag/agent/loop.py: none is shown twice, three at most are shown,
-- and they are counted, also where a tool raises.
use exeio_memgraphrag.Base.{
  ℕ, suc, ◌+◌, ◌≤◌, List, [], ◌∷◌, ◌++◌, Bool, true, false, if◌then◌else◌, ◌≡◌, refl, ap, ◌∙◌,
  arith, length, length-append, subst, Bool-cases, inl, inr, append-nil,
}
use exeio_memgraphrag.Text.Defs.{Text, codes}
use exeio_memgraphrag.Pipeline.Index.{Attempt, done, failure}
use exeio_memgraphrag.Agent.Budget.{Call, text}
use exeio_memgraphrag.Agent.References.{Reference, ToolBox, ToolResult}
use exeio_memgraphrag.Agent.Tools.{run_tool}
use exeio_memgraphrag.Agent.Loop.{
  tool_call_key, go_on, finish_call, run_new_call, run_call, run_calls, act,
}
use exeio_memgraphrag.Agent.Session.{
  Frame, tool_call, references, token, final, AgentState, Turn, Setting, first_calls,
  max_calls_per_turn, seen, send_references, token_frames, send_found, tell,
}
use exeio_memgraphrag.Agent.Counted.{
  count_references, count_final, AllDistinct, IsLimited, count_references-append,
  count_final-append, IsLimited-le, IsLimited-snoc, IsLimited-references, AllDistinct-snoc,
  length-first_calls,
}

module _ (setting : Setting) where
  -- The keys of the tool calls that are shown.
  abbrev pub keys_of : List Frame → List Text
  keys_of [] = []
  keys_of (tool_call name arguments step ∷ frames) =
      tool_call_key setting (record { name = name; arguments = arguments }) ∷ keys_of frames
  keys_of (references refs ∷ frames) = keys_of frames
  keys_of (token t ∷ frames) = keys_of frames
  keys_of (final answer stop ∷ frames) = keys_of frames

  pub keys_of-append : (a b : List Frame) → keys_of (a ++ b) ≡ keys_of a ++ keys_of b
  keys_of-append [] b = refl
  keys_of-append (tool_call name arguments step ∷ a) b =
      ap (λ ks. tool_call_key setting (record { name = name; arguments = arguments }) ∷ ks)
        (keys_of-append a b)
  keys_of-append (references refs ∷ a) b = keys_of-append a b
  keys_of-append (token t ∷ a) b = keys_of-append a b
  keys_of-append (final answer stop ∷ a) b = keys_of-append a b

  pub keys_of-tokens : (ts : List Text) → keys_of (token_frames ts) ≡ []
  keys_of-tokens [] = refl
  keys_of-tokens (t ∷ ts) = keys_of-tokens ts

  -- Between two calls: what was shown is what was run, nothing of it twice.
  pub record IsOrderly (st : AgentState) : Type 0 where
    pub called : keys_of st.frames ≡ st.seen_calls
    pub distinct : AllDistinct st.seen_calls
    pub sent : count_references st.frames ≡ (if st.references_sent then 1 else 0)
    pub running : count_final st.frames ≡ 0

  -- Every call that was shown is counted, unless the tool has raised.
  abbrev pub IsCounted : {A : Type 0} → AgentState × Attempt A → Type 0
  IsCounted (st, failure message) = Unit
  IsCounted (st, done _) = st.tool_calls ≡ length st.seen_calls

  -- The calls of a step, which is under way.
  pub record IsRunning (step n : ℕ) (r : AgentState × Attempt Unit) : Type 0 where
    pub orderly : IsOrderly r.0
    pub limited : IsLimited step n r.0.frames
    pub counted : IsCounted r
    pub steps : r.0.steps ≡ suc step

  finish_call-IsRunning :
      (step n : ℕ) (st : AgentState) (ran : Attempt (ToolResult × ToolBox))
      → IsOrderly st
      → IsLimited step n st.frames
      → suc st.tool_calls ≡ length st.seen_calls
      → st.steps ≡ suc step
      → IsRunning step n (finish_call st ran)
  unfolding finish_call
  finish_call-IsRunning step n st (failure message) o limited counted steps = record {
    orderly = o;
    limited = limited;
    counted = tt;
    steps = steps;
  }
  finish_call-IsRunning step n st (done (result, box)) o limited counted steps = record {
    orderly = record {
      called = o.called;
      distinct = o.distinct;
      sent = o.sent;
      running = o.running;
    };
    limited = limited;
    counted = counted;
    steps = steps;
  }

  run_call-IsRunning :
      (step n : ℕ) (call : Call) (st : AgentState)
      → IsRunning step n (st, done tt)
      → IsRunning step (suc n) (run_call setting step call st)
  unfolding run_call run_new_call
  run_call-IsRunning step n call st running =
      let o = running.orderly in
      let key = tool_call_key setting call in
      elim (Bool-cases (seen key st.seen_calls)) [
        | inl again ↦ rw again (record {
          orderly = record {
            called = o.called;
            distinct = o.distinct;
            sent = o.sent;
            running = o.running;
          };
          limited = IsLimited-le step n (suc n) st.frames (omega arith) running.limited;
          counted = running.counted;
          steps = running.steps;
        })
        | inr new ↦ rw new (
            finish_call-IsRunning step (suc n)
              (record st {
                frames = st.frames ++ tool_call call.name call.arguments step ∷ [];
                seen_calls = st.seen_calls ++ key ∷ [];
              })
              (run_tool setting.backend call.name call.arguments st.toolbox)
              (record {
                called = keys_of-append st.frames _ ∙ ap (λ ks. ks ++ key ∷ []) o.called;
                distinct = AllDistinct-snoc key st.seen_calls o.distinct new;
                sent = count_references-append st.frames _ ∙ omega (arith, o.sent);
                running = count_final-append st.frames _ ∙ omega (arith, o.running);
              })
              (IsLimited-snoc step n call.name call.arguments st.frames running.limited)
              (omega (arith, running.counted, length-append st.seen_calls (key ∷ [])))
              running.steps)
      ]

  -- An exception ends the step, within the limit of it.
  go_on-IsRunning :
      (step n m : ℕ) (r : AgentState × Attempt Unit) (rest : AgentState → AgentState × Attempt Unit)
      → n ≤ m
      → IsRunning step n r
      → ((st : AgentState) → IsRunning step n (st, done tt) → IsRunning step m (rest st))
      → IsRunning step m (go_on r rest)
  go_on-IsRunning step n m (st, failure message) rest le running next = record {
    orderly = running.orderly;
    limited = IsLimited-le step n m st.frames le running.limited;
    counted = tt;
    steps = running.steps;
  }
  go_on-IsRunning step n m (st, done _) rest le running next = next st running

  run_calls-IsRunning :
      (step n : ℕ) (calls : List Call) (st : AgentState)
      → IsRunning step n (st, done tt)
      → IsRunning step (n + length calls) (run_calls setting step calls st)
  unfolding run_calls
  run_calls-IsRunning step n [] st running =
      subst (λ m. IsRunning step m (st, done tt)) (omega arith) running
  run_calls-IsRunning step n (call ∷ calls) st running =
      go_on-IsRunning step (suc n) (n + suc (length calls)) (run_call setting step call st)
        (run_calls setting step calls) (omega arith) (run_call-IsRunning step n call st running)
        (λ st' running'.
          subst (λ m. IsRunning step m (run_calls setting step calls st')) (omega arith)
            (run_calls-IsRunning step (suc n) calls st' running'))

  send_found-IsRunning :
      (step n : ℕ) (refs : List Reference) (sent : Bool) (st : AgentState)
      → st.references_sent ≡ sent
      → IsRunning step n (st, done tt)
      → IsRunning step n (send_found refs sent st, done tt)
  unfolding send_found
  send_found-IsRunning step n [] sent st e running = running
  send_found-IsRunning step n (r ∷ refs) true st e running = running
  send_found-IsRunning step n (r ∷ refs) false st e running =
      let o = running.orderly in
      record {
        orderly = record {
          called =
              keys_of-append st.frames (references (r ∷ refs) ∷ [])
              ∙ append-nil (keys_of st.frames)
              ∙ o.called;
          distinct = o.distinct;
          sent =
              count_references-append st.frames (references (r ∷ refs) ∷ [])
              ∙ omega (arith, o.sent, ap {B = ℕ} (λ b. if b then 1 else 0) e);
          running =
              count_final-append st.frames (references (r ∷ refs) ∷ []) ∙ omega (arith, o.running);
        };
        limited = IsLimited-references step n (r ∷ refs) st.frames running.limited;
        counted = running.counted;
        steps = running.steps;
      }

  pub act-IsRunning :
      (step : ℕ) (turn : Turn) (st : AgentState)
      → IsRunning step 0 (st, done tt)
      → IsRunning step 3 (act setting step turn st)
  unfolding act send_references
  act-IsRunning step turn st running =
      let o = running.orderly in
      let calls = first_calls max_calls_per_turn turn.calls in
      let told =
        tell
          (record {
            role = codes "assistant";
            content = text turn.content;
            tool_calls = turn.calls;
          })
          st in
      let running' : IsRunning step 0 (told, done tt) = record {
        orderly = record {
          called = o.called;
          distinct = o.distinct;
          sent = o.sent;
          running = o.running;
        };
        limited = running.limited;
        counted = running.counted;
        steps = running.steps;
      } in
      go_on-IsRunning step (length calls) 3 (run_calls setting step calls told)
        (λ after. (send_found after.toolbox.references after.references_sent after, done tt))
        (length-first_calls max_calls_per_turn turn.calls)
        (subst (λ n. IsRunning step n (run_calls setting step calls told)) (omega arith)
          (run_calls-IsRunning step 0 calls told running'))
        (λ after sent.
          let found =
            send_found-IsRunning step (length calls) after.toolbox.references after.references_sent
              after refl sent in
          record {
            orderly = found.orderly;
            limited =
                IsLimited-le step (length calls) 3
                  (send_found after.toolbox.references after.references_sent after).frames
                  (length-first_calls max_calls_per_turn turn.calls) found.limited;
            counted = found.counted;
            steps = found.steps;
          })
