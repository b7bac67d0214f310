-- ===== src/Ctcp/Events.antt =====
-- A connection over its lifetime: the calls of lab3/ctcp.c that the library makes, one after another.
pub mod Holding
pub mod Pieces
pub mod Transfer
pub mod GivesUp
use mini_internet_computer_n.Base.{ℕ, ◌+◌, Bool, List, [], ◌∷◌}
use mini_internet_computer_n.Ctcp.Segment.{CtcpSegment}
use mini_internet_computer_n.Ctcp.State.{CtcpState, Run, ok, exited, fault, ◌>>=◌}
use mini_internet_computer_n.Ctcp.Receive.{Platform, ctcp_receive, ctcp_output}
use mini_internet_computer_n.Ctcp.Timer.{timer_round, ctcp_read}

pub data Event : Type 0 where
  elapse : ℕ → Event
  arrive : ℕ → CtcpSegment → ℕ → List ℕ → Event
  input : List (List ℕ) → Bool → Event
  drained : ℕ → Event
  tick : Event

module _ (pf : Platform) where
  -- The call that an event stands for. Time passes between the calls.
  unfoldable pub step : CtcpState → Event → Run CtcpState
  step st (elapse d) = ok (record st { clock = st.clock + d })
  step st (arrive bufspace seg len beyond) = ctcp_receive pf bufspace st seg len beyond
  step st (input pieces ends) = ok (ctcp_read pf st pieces ends)
  step st (drained bufspace) = ctcp_output pf bufspace st
  step st tick = timer_round pf st

  unfoldable pub run : CtcpState → List Event → Run CtcpState
  run st [] = ok st
  run st (e ∷ es) = step st e >>= λ st'. run st' es
