-- ===== src/Daemon/State/Invariant.antt =====
-- What holds of the run state after any operations.
use docker.Common.{◌<◌, ◌≡◌, refl, Bool, true, false, Option, none, some, List, [], ◌∷◌, arith}
use docker.Daemon.State.{
  State, Op, runs, stops, restarts, pauses, unpauses, new_state, apply, apply_all,
}

-- A container that restarts counts as running; only a running one that does not restart has a
-- process, and it has one.
pub record IsConsistent (s : State) : Type 0 where
  pub restarting_runs : s.restarting ≡ true → s.running ≡ true
  pub restarting_waits : s.restarting ≡ true → s.pid ≡ 0
  pub stopped_has_none : s.running ≡ false → s.pid ≡ 0
  pub runs_process : s.running ≡ true → s.restarting ≡ false → 0 < s.pid

-- The process that a container runs has a pid.
abbrev pub HasPid : Op → Type 0
HasPid (runs pid now) = 0 < pid
HasPid (stops code now) = Unit
HasPid (restarts code now) = Unit
HasPid pauses = Unit
HasPid unpauses = Unit

abbrev pub HavePids : List Op → Type 0
HavePids [] = Unit
HavePids (op ∷ ops) = HasPid op × HavePids ops

pub new_state-IsConsistent : IsConsistent new_state
unfolding new_state
new_state-IsConsistent = ground arith

pub apply-IsConsistent :
    (op : Op) (s : State) → HasPid op → IsConsistent s → IsConsistent (apply op s)
unfolding apply
apply-IsConsistent (runs pid now) s h c = ground arith
apply-IsConsistent (stops code now) s h c = ground arith
apply-IsConsistent (restarts code now) s h c = ground arith
apply-IsConsistent pauses s h c = ground arith
apply-IsConsistent unpauses s h c = ground arith

apply_all-IsConsistent :
    (ops : List Op) (s : State) → HavePids ops → IsConsistent s → IsConsistent (apply_all ops s)
unfolding apply_all
apply_all-IsConsistent [] s h c = c
apply_all-IsConsistent (op ∷ ops) s h c =
    apply_all-IsConsistent ops (apply op s) h.1 (apply-IsConsistent op s h.0 c)

-- What the last of the operations that decide on a value makes of it; `d` where none decides.
abbrev pub last_said : {A : Type 0} → (Op → Option A) → A → List Op → A
last_said says d [] = d
last_said says d (op ∷ ops) = last_said says (elim (says op) [ none ↦ d | some a ↦ a ]) ops

abbrev pub says_running : Op → Option Bool
says_running (runs pid now) = some true
says_running (stops code now) = some false
says_running (restarts code now) = some true
says_running pauses = none
says_running unpauses = none

abbrev pub says_restarting : Op → Option Bool
says_restarting (runs pid now) = some false
says_restarting (stops code now) = some false
says_restarting (restarts code now) = some true
says_restarting pauses = none
says_restarting unpauses = none

abbrev pub says_paused : Op → Option Bool
says_paused (runs pid now) = some false
says_paused (stops code now) = none
says_paused (restarts code now) = none
says_paused pauses = some true
says_paused unpauses = some false

-- The flags of a state are what the last operations that decide on them said.
abbrev pub HasFlags : List Op → State → State → Type 0
HasFlags ops s s' =
    (s'.running ≡ last_said says_running s.running ops)
    × (s'.restarting ≡ last_said says_restarting s.restarting ops)
    × (s'.paused ≡ last_said says_paused s.paused ops)

apply_all-HasFlags : (ops : List Op) (s : State) → HasFlags ops s (apply_all ops s)
unfolding apply_all apply
apply_all-HasFlags [] s = (refl, refl, refl)
apply_all-HasFlags (runs pid now ∷ ops) s = apply_all-HasFlags ops (apply (runs pid now) s)
apply_all-HasFlags (stops code now ∷ ops) s = apply_all-HasFlags ops (apply (stops code now) s)
apply_all-HasFlags (restarts code now ∷ ops) s =
    apply_all-HasFlags ops (apply (restarts code now) s)
apply_all-HasFlags (pauses ∷ ops) s = apply_all-HasFlags ops (apply pauses s)
apply_all-HasFlags (unpauses ∷ ops) s = apply_all-HasFlags ops (apply unpauses s)

-- From the new state, after any operations whose processes have pids: the container counts as running
-- exactly where the last run, stop or restart was not a stop, as restarting exactly where that was a
-- restart, and as paused exactly where the last run, pause or unpause was a pause; where it restarts
-- or does not run it has no process, and where it runs and does not restart it has one.
pub apply_all-new_state-IsConsistent :
    (ops : List Op)
    → HavePids ops
    → HasFlags ops new_state (apply_all ops new_state) × IsConsistent (apply_all ops new_state)
apply_all-new_state-IsConsistent ops h = (
  apply_all-HasFlags ops new_state,
  apply_all-IsConsistent ops new_state h new_state-IsConsistent,
)
