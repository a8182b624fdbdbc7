-- ===== src/Daemon/State.antt =====
-- daemon/state.go: the run state of a container. The mutex makes each method one step on the state.
-- `wait_chan` counts the channels made so far: to close the channel and make a new one is the next
-- number, and who waits on an older one has been woken. A time is a number of seconds, 0 for the zero
-- time; an operation takes the time at which it runs.
pub mod Invariant
pub mod Waiting
mod Tests
use docker.Common.{
  ℕ, ◌+◌, Bool, true, false, Option, none, some, List, [], ◌∷◌, ltb, if◌then◌else◌, nat_eq, ◌==◌,
}
use docker.Common.Int.{ℤ, pos}

pub record State : Type 0 where
  pub running : Bool
  pub paused : Bool
  pub restarting : Bool
  pub pid : ℕ
  pub exit_code : ℤ
  pub started_at : ℕ
  pub finished_at : ℕ
  pub wait_chan : ℕ

pub new_state : State
new_state = record {
  running = false;
  paused = false;
  restarting = false;
  pid = 0;
  exit_code = pos 0;
  started_at = 0;
  finished_at = 0;
  wait_chan = 0;
}

unfoldable pub set_running : ℕ → ℕ → State → State
set_running pid now s = record s {
  running = true;
  paused = false;
  restarting = false;
  exit_code = pos 0;
  pid = pid;
  started_at = now;
  wait_chan = s.wait_chan + 1;
}

unfoldable pub set_stopped : ℤ → ℕ → State → State
set_stopped exit_code now s = record s {
  running = false;
  restarting = false;
  pid = 0;
  finished_at = now;
  exit_code = exit_code;
  wait_chan = s.wait_chan + 1;
}

unfoldable pub set_restarting : ℤ → ℕ → State → State
set_restarting exit_code now s = record s {
  running = true;
  restarting = true;
  pid = 0;
  finished_at = now;
  exit_code = exit_code;
  wait_chan = s.wait_chan + 1;
}

pub set_paused : State → State
set_paused s = record s { paused = true }

pub set_unpaused : State → State
set_unpaused s = record s { paused = false }

-- What the rest of the daemon does to a state, with the arguments and the time of the call.
pub data Op : Type 0 where
  runs : ℕ → ℕ → Op
  stops restarts : ℤ → ℕ → Op
  pauses unpauses : Op

pub apply : Op → State → State
unfolding set_running set_stopped set_restarting set_paused set_unpaused
apply (runs pid now) s = set_running pid now s
apply (stops code now) s = set_stopped code now s
apply (restarts code now) s = set_restarting code now s
apply pauses s = set_paused s
apply unpauses s = set_unpaused s

-- The state when the channel that was current at `chan` is closed, if the operations close it.
pub woken : ℕ → State → List Op → Option State
woken chan s [] = none
woken chan s (op ∷ ops) =
    let s' = apply op s in
    let rest = woken chan s' ops in if ltb chan s'.wait_chan then some s' else rest

-- `WaitRunning`, with the operations of the others during the wait: the pid, or `none` where the
-- timeout comes first.
pub wait_running : State → List Op → Option ℕ
wait_running s ops =
    if s.running
    then some s.pid
    else elim (woken s.wait_chan s ops) [ none ↦ none | some s' ↦ some s'.pid ]

-- `WaitStop`: the exit code.
pub wait_stop : State → List Op → Option ℤ
wait_stop s ops =
    if s.running
    then elim (woken s.wait_chan s ops) [ none ↦ none | some s' ↦ some s'.exit_code ]
    else some s.exit_code

pub apply_all : List Op → State → State
apply_all [] s = s
apply_all (op ∷ ops) s = apply_all ops (apply op s)
