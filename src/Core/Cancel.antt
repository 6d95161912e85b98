-- ===== src/Core/Cancel.antt =====
-- agentflow/core/cancel.h and cancel.cc: the state that `CancelSource` and `CancelToken` share.
-- A callback is a number. Each part that holds the mutex is one function, which also gives the
-- callbacks that its thread then runs without the mutex.
pub mod Once
mod Tests
use zen_agent.Common.{ℕ, Bool, true, false, List, [], ◌∷◌, ◌++◌, if◌then◌else◌}

pub record State : Type 0 where
  pub cancelled : Bool
  pub on_cancel_cbs : List ℕ

-- `CancelSource::Cancel`.
unfoldable pub cancel : State → State × List ℕ
cancel s =
    if s.cancelled
    then (s, [])
    else (record { cancelled = true; on_cancel_cbs = [] }, s.on_cancel_cbs)

-- `CancelToken::OnCancel` of a token that has a source.
unfoldable pub on_cancel : ℕ → State → State × List ℕ
on_cancel cb s =
    if s.cancelled
    then (s, cb ∷ [])
    else (record s { on_cancel_cbs = s.on_cancel_cbs ++ cb ∷ [] }, [])

-- The shared state among threads: the callbacks that were passed to `OnCancel`, those that some
-- thread is about to run, and those that ran.
pub record System : Type 0 where
  pub state : State
  pub registered : List ℕ
  pub firing : List ℕ
  pub fired : List ℕ

abbrev pub initial : System
initial = record {
  state = record { cancelled = false; on_cancel_cbs = [] };
  registered = [];
  firing = [];
  fired = [];
}

unfoldable pub after_cancel : System → System
unfolding cancel
after_cancel s = record s { state = (cancel s.state).0; firing = s.firing ++ (cancel s.state).1 }

unfoldable pub after_register : ℕ → System → System
unfolding on_cancel
after_register cb s = record s {
  state = (on_cancel cb s.state).0;
  registered = s.registered ++ cb ∷ [];
  firing = s.firing ++ (on_cancel cb s.state).1;
}
