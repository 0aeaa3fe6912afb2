-- ===== src/Core/State/Lifecycle.antt =====
-- Which states a run can reach.
use neuronium.Prelude.{
  String, ◌≡◌, refl, Bool, true, false, Option, ◌∙◌, ap, ◌⊎◌, inl, inr, arith, any_of, ok,
}
use neuronium.Core.State.Defs.{RunState, AgentState, same_state, valid_transitions, transition_to}

abbrev pub is_terminal : RunState → Bool
is_terminal RunState.completed = true
is_terminal RunState.failed = true
is_terminal RunState.cancelled = true
is_terminal _ = false

-- Successful transitions, one after the other.
pub data Reaches : AgentState → AgentState → Type 0 where
  start : {st : AgentState} → Reaches st st
  step :
      {st mid last : AgentState} (target : RunState) (message : Option String)
      → transition_to target message st ≡ ok mid
      → Reaches mid last
      → Reaches st last

pub Reaches-trans : {a b c : AgentState} → Reaches a b → Reaches b c → Reaches a c
Reaches-trans start r = r
Reaches-trans (step target message e p) r = step target message e (Reaches-trans p r)

-- A transition succeeds exactly when its target is listed for the current state.
transition_to-target :
    (target : RunState) (message : Option String) (st : AgentState) {next : AgentState}
    → transition_to target message st ≡ ok next
    → (next.run_state ≡ target)
      × (any_of (same_state target) (valid_transitions st.run_state) ≡ true)
      × (next.trace_id ≡ st.trace_id)
      × (next.execution_id ≡ st.execution_id)
      × (next.intention ≡ st.intention)
unfolding transition_to
transition_to-target target message st h = ground arith

terminal_stuck :
    (target s : RunState)
    → is_terminal s ≡ true
    → any_of (same_state target) (valid_transitions s) ≡ false
unfolding valid_transitions
terminal_stuck target s h = ground arith

-- What no sequence of `transition_to` calls changes, and that none of them leaves a terminal state.
pub record Kept (st last : AgentState) : Type 0 where
  pub same_trace : last.trace_id ≡ st.trace_id
  pub same_execution : last.execution_id ≡ st.execution_id
  pub same_intention : last.intention ≡ st.intention
  pub absorbing : is_terminal st.run_state ≡ true → last ≡ st

-- Any sequence of `transition_to` calls that succeed keeps the ids and the intention of a run, and from
-- COMPLETED, FAILED or CANCELLED no such call succeeds, so that the state stays as it is. Nothing is said
-- of code that assigns the state without `transition_to`.
pub Reaches-Kept : {st last : AgentState} → Reaches st last → Kept st last
Reaches-Kept start = record {
  same_trace = refl;
  same_execution = refl;
  same_intention = refl;
  absorbing = λ h. refl;
}
Reaches-Kept {st} (step {mid = mid} target message e p) =
    let t = transition_to-target target message st e in
    let k = Reaches-Kept p in
    record {
      same_trace = k.same_trace ∙ t.2;
      same_execution = k.same_execution ∙ t.3;
      same_intention = k.same_intention ∙ t.4;
      absorbing = λ h. absurd (ground (arith, terminal_stuck target st.run_state h, t.1));
    }

-- A RUNNING state on the way.
pub record PassesRunning (st last : AgentState) : Type 0 where
  pub via : AgentState
  pub running : via.run_state ≡ RunState.running
  pub before : Reaches st via
  pub after : Reaches via last

abbrev pub needs_running : RunState → Bool
needs_running RunState.paused = true
needs_running RunState.completed = true
needs_running _ = false

from_pending :
    (target : RunState)
    → any_of (same_state target) (valid_transitions RunState.pending) ≡ true
    → (target ≡ RunState.running) ⊎ ((is_terminal target ≡ true) × (needs_running target ≡ false))
unfolding valid_transitions
from_pending target h = ground arith

-- A PENDING run that is later PAUSED or COMPLETED has been RUNNING in between.
pub Reaches-PassesRunning :
    {st last : AgentState}
    → Reaches st last
    → st.run_state ≡ RunState.pending
    → needs_running last.run_state ≡ true
    → PassesRunning st last
Reaches-PassesRunning start p n = absurd (ground (arith, p))
Reaches-PassesRunning {st} (step {mid = mid} target message e rest) p n =
    let t = transition_to-target target message st e in
    elim (from_pending target (ground (arith, p, t.1))) [
      | inl now ↦ record {
        via = mid;
        running = t.0 ∙ now;
        before = step target message e start;
        after = rest;
      }
      | inr (ended, n') ↦ absurd (
          ground (
            arith,
            t.0,
            ap (λ (x : AgentState). x.run_state)
                ((Reaches-Kept rest).absorbing (ground (arith, t.0))),
          ))
    ]
