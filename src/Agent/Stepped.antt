-- ===== src/Agent/Stepped.antt =====
-- The steps of the loop of memgraphrag/agent/loop.py as a relation, and what a run of them keeps to.
use exeio_memgraphrag.Base.{
  ℕ, zero, suc, ◌+◌, ◌≤◌, List, [], ◌∷◌, ◌++◌, if◌then◌else◌, ltb, ◌≡◌, ◌≢◌, refl, sym, ◌∙◌, subst,
  arith, length,
}
use exeio_memgraphrag.Pipeline.Index.{Attempt, done, failure}
use exeio_memgraphrag.Agent.Budget.{Call}
use exeio_memgraphrag.Agent.Loop.{
  go_on, act, begin_step, decide_turn, without_calls, follow_calls, follow_turn, run_steps,
}
use exeio_memgraphrag.Agent.Session.{
  Reason, AgentState, Frame, Turn, Setting, answered, max_steps_reached,
}
use exeio_memgraphrag.Agent.Counted.{IsLimited, count_step, count_step-append}
use exeio_memgraphrag.Agent.Looped.{IsOrderly, IsCounted, IsRunning, act-IsRunning}

-- Each of the steps shows three calls at most, and no other step shows any.
abbrev pub AllWithin : ℕ → List Frame → Type 0
AllWithin steps frames = (k : ℕ) → count_step k frames ≤ (if ltb k steps then 3 else 0)

AllWithin-before :
    (step : ℕ) (frames : List Frame) → IsLimited step 0 frames → AllWithin step frames
AllWithin-before step frames limited k = ground (arith, limited k)

AllWithin-behind :
    (step : ℕ) (frames : List Frame) → IsLimited step 3 frames → AllWithin (suc step) frames
AllWithin-behind step frames limited k = ground (arith, limited k)

IsLimited-next :
    (step : ℕ) (frames : List Frame) → IsLimited step 3 frames → IsLimited (suc step) 0 frames
IsLimited-next step frames limited k = ground (arith, limited k)

AllWithin-next :
    (step : ℕ) (frames : List Frame) → AllWithin step frames → AllWithin (suc step) frames
AllWithin-next step frames within k = ground (arith, within k)

pub AllWithin-le :
    (steps bound : ℕ) (frames : List Frame)
    → steps ≤ bound
    → AllWithin steps frames
    → AllWithin bound frames
AllWithin-le steps bound frames le within k = ground (arith, le, within k)

-- Frames that show no call.
pub AllWithin-append :
    (steps : ℕ) (a b : List Frame)
    → ((k : ℕ) → count_step k b ≡ 0)
    → AllWithin steps a
    → AllWithin steps (a ++ b)
AllWithin-append steps a b quiet within k =
    ground (arith, count_step-append k a b, quiet k, within k)

module _ (setting : Setting) where
  -- The state after a number of steps in each of which the model asked for tools and none of them
  -- raised.
  pub data Acted (first : AgentState) : ℕ → AgentState → Type 0 where
    at_start : Acted first zero first
    one_more :
        (step : ℕ) (st st' : AgentState) (turn : Turn)
        → Acted first step st
        → decide_turn setting step (begin_step setting step st) ≡ done turn
        → turn.calls ≢ []
        → act setting step turn (begin_step setting step st) ≡ (st', done tt)
        → Acted first (suc step) st'

  -- How many steps there were: all that are allowed, where the model asked for tools in each; or
  -- those in which it did so, one at least, and one more in which it did not.
  abbrev pub IsStopped : AgentState → ℕ → Reason → ℕ → Type 0
  IsStopped first bound max_steps_reached steps =
      (steps ≡ bound) × ((st : AgentState) × Acted first bound st)
  IsStopped first bound answered steps =
      (acted : ℕ) × (st : AgentState) × (turn : Turn) × Acted first (suc acted) st
      × (decide_turn setting (suc acted) (begin_step setting (suc acted) st) ≡ done turn)
      × (turn.calls ≡ [])
      × (steps ≡ suc (suc acted))
      × (steps ≤ bound)

  abbrev pub IsEnded : AgentState → ℕ → AgentState × Attempt Reason → Type 0
  IsEnded first bound (st, failure message) = st.steps ≤ bound
  IsEnded first bound (st, done reason) = IsStopped first bound reason st.steps

  -- The end of a run of the steps.
  pub record IsBounded (first : AgentState) (bound : ℕ) (r : AgentState × Attempt Reason)
      : Type 0 where
    pub orderly : IsOrderly setting r.0
    pub within : AllWithin r.0.steps r.0.frames
    pub counted : IsCounted setting r
    pub ended : IsEnded first bound r

  module _ (first : AgentState) (bound : ℕ) where
    begun-AllWithin :
        (step : ℕ) (st : AgentState)
        → IsRunning setting step 0 (st, done tt)
        → AllWithin st.steps st.frames
    begun-AllWithin step st running =
        subst (λ n. AllWithin n st.frames) (sym running.steps)
          (AllWithin-next step st.frames (AllWithin-before step st.frames running.limited))

    -- A step in which the model asks for no tool.
    last_step-IsBounded :
        (step : ℕ) (st : AgentState) (turn : Turn)
        → suc step ≤ bound
        → let begun = begin_step setting step st in
          IsRunning setting step 0 (begun, done tt)
          → Acted first step st
          → decide_turn setting step begun ≡ done turn
          → turn.calls ≡ []
          → IsBounded first bound (begun, without_calls setting step)
    unfolding without_calls
    last_step-IsBounded zero st turn small running acted decided idle = record {
      orderly = running.orderly;
      within = begun-AllWithin zero (begin_step setting zero st) running;
      counted = tt;
      ended = omega (arith, small, running.steps);
    }
    last_step-IsBounded (suc step) st turn small running acted decided idle = record {
      orderly = running.orderly;
      within = begun-AllWithin (suc step) (begin_step setting (suc step) st) running;
      counted = running.counted;
      ended = (
        step,
        st,
        turn,
        acted,
        decided,
        idle,
        running.steps,
        omega (arith, small, running.steps),
      );
    }

    -- A step in which it asks for some.
    go_on-IsBounded :
        (step : ℕ) (r : AgentState × Attempt Unit) (rest : AgentState → AgentState × Attempt Reason)
        → suc step ≤ bound
        → IsRunning setting step 3 r
        → ((st : AgentState)
            → IsRunning setting step 3 (st, done tt)
            → r ≡ (st, done tt)
            → IsBounded first bound (rest st))
        → IsBounded first bound (go_on r rest)
    go_on-IsBounded step (st, failure message) rest small running next = record {
      orderly = running.orderly;
      within =
          subst (λ n. AllWithin n st.frames) (sym running.steps)
            (AllWithin-behind step st.frames running.limited);
      counted = tt;
      ended = omega (arith, small, running.steps);
    }
    go_on-IsBounded step (st, done _) rest small running next = next st running refl

    module _ (step : ℕ) (st : AgentState) (rest : AgentState → AgentState × Attempt Reason)
        (small : suc step ≤ bound)
        (running : IsRunning setting step 0 (begin_step setting step st, done tt))
        (acted : Acted first step st)
        (next : (st' : AgentState)
          → IsRunning setting step 3 (st', done tt)
          → Acted first (suc step) st'
          → IsBounded first bound (rest st')) where
      follow_calls-IsBounded :
          (turn : Turn) (calls : List Call)
          → decide_turn setting step (begin_step setting step st) ≡ done turn
          → turn.calls ≡ calls
          → let begun = begin_step setting step st in
            IsBounded first bound
              (follow_calls setting step calls begun (go_on (act setting step turn begun) rest))
      unfolding follow_calls
      follow_calls-IsBounded turn [] decided same =
          last_step-IsBounded step st turn small running acted decided same
      follow_calls-IsBounded turn (call ∷ calls) decided same =
          let begun = begin_step setting step st in
          go_on-IsBounded step (act setting step turn begun) rest small
            (act-IsRunning setting step turn begun running)
            (λ st' running' ran.
              next st' running'
                (one_more step st st' turn acted decided (λ e. let no = sym same ∙ e in cc) ran))

      follow_turn-IsBounded :
          (decided : Attempt Turn)
          → decide_turn setting step (begin_step setting step st) ≡ decided
          → IsBounded first bound
              (follow_turn setting step decided (begin_step setting step st) rest)
      unfolding follow_turn
      follow_turn-IsBounded (failure message) e = record {
        orderly = running.orderly;
        within = begun-AllWithin step (begin_step setting step st) running;
        counted = tt;
        ended = omega (arith, small, running.steps);
      }
      follow_turn-IsBounded (done turn) e = follow_calls-IsBounded turn turn.calls e refl

  begin_step-IsRunning :
      (step : ℕ) (st : AgentState)
      → IsOrderly setting st
      → IsLimited step 0 st.frames
      → st.tool_calls ≡ length st.seen_calls
      → IsRunning setting step 0 (begin_step setting step st, done tt)
  unfolding begin_step
  begin_step-IsRunning step st o limited counted = record {
    orderly = record {
      called = o.called;
      distinct = o.distinct;
      sent = o.sent;
      running = o.running;
    };
    limited = limited;
    counted = counted;
    steps = refl;
  }

  pub run_steps-IsBounded :
      (first : AgentState) (left step : ℕ) (st : AgentState)
      → IsOrderly setting st
      → IsLimited step 0 st.frames
      → st.tool_calls ≡ length st.seen_calls
      → st.steps ≡ step
      → Acted first step st
      → IsBounded first (step + left) (run_steps setting left step st)
  unfolding run_steps
  run_steps-IsBounded first zero step st o limited counted at acted = record {
    orderly = o;
    within = subst (λ n. AllWithin n st.frames) (sym at) (AllWithin-before step st.frames limited);
    counted = counted;
    ended = (omega (arith, at), (st, subst (λ n. Acted first n st) (omega arith) acted));
  }
  run_steps-IsBounded first (suc left) step st o limited counted at acted =
      follow_turn-IsBounded first (step + suc left) step st (run_steps setting left (suc step))
        (omega arith) (begin_step-IsRunning step st o limited counted) acted
        (λ st' running acted'.
          subst (λ bound. IsBounded first bound (run_steps setting left (suc step) st'))
            (omega arith)
            (run_steps-IsBounded first left (suc step) st' running.orderly
              (IsLimited-next step st'.frames running.limited) running.counted running.steps
              acted'))
        (decide_turn setting step (begin_step setting step st)) refl

  pub IsEnded-le :
      (first : AgentState) (bound : ℕ) (st : AgentState) (outcome : Attempt Reason)
      → IsEnded first bound (st, outcome)
      → st.steps ≤ bound
  IsEnded-le first bound st (failure message) ended = ended
  IsEnded-le first bound st (done max_steps_reached) (all, _) = omega (arith, all)
  IsEnded-le first bound st (done answered) (acted, before, turn, _, _, _, _, most) = most
