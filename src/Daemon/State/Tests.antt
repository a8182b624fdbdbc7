-- ===== src/Daemon/State/Tests.antt =====
-- Runs of the container state, and its theorems at concrete inputs.
use docker.Common.{List, [], ◌∷◌, arith}
use docker.Common.Int.{pos}
use docker.Daemon.State.{Op, runs, stops, restarts, pauses, unpauses, new_state, apply_all}
use docker.Daemon.State.Invariant.{HasFlags, IsConsistent, apply_all-new_state-IsConsistent}

abbrev history : List Op
history =
    runs 41 100 ∷ pauses ∷ unpauses ∷ restarts (pos 3) 110 ∷ runs 42 111 ∷ stops (pos 1) 120 ∷ []

apply_all-new_state-IsConsistent_example :
    HasFlags history new_state (apply_all history new_state)
    × IsConsistent (apply_all history new_state)
apply_all-new_state-IsConsistent_example =
    apply_all-new_state-IsConsistent history
      (omega arith, (tt, (tt, (tt, (omega arith, (tt, tt))))))
