-- ===== src/Daemon/State/Waiting.antt =====
-- What WaitStop and WaitRunning return.
use docker.Common.{ℕ, ◌≡◌, refl, true, false, Option, none, some, List, [], ◌∷◌, arith}
use docker.Common.Int.{ℤ, pos}
use docker.Daemon.State.{
  State, Op, runs, stops, restarts, pauses, unpauses, apply, woken, wait_running, wait_stop,
}

-- The first operation that wakes the waiters: no pause and no unpause does.
abbrev pub first_event : List Op → Option Op
first_event [] = none
first_event (pauses ∷ ops) = first_event ops
first_event (unpauses ∷ ops) = first_event ops
first_event (runs pid now ∷ ops) = some (runs pid now)
first_event (stops code now ∷ ops) = some (stops code now)
first_event (restarts code now ∷ ops) = some (restarts code now)

-- The exit code that an operation leaves, and the pid.
abbrev pub code_of : Op → Option ℤ
code_of (runs pid now) = some (pos 0)
code_of (stops code now) = some code
code_of (restarts code now) = some code
code_of pauses = none
code_of unpauses = none

abbrev pub pid_of : Op → Option ℕ
pid_of (runs pid now) = some pid
pid_of (stops code now) = some 0
pid_of (restarts code now) = some 0
pid_of pauses = none
pid_of unpauses = none

abbrev pub and_then {ℓ κ} : {A : Type ℓ} {B : Type κ} → Option A → (A → Option B) → Option B
and_then none f = none
and_then (some a) f = f a

woken-code :
    (ops : List Op) (s : State)
    → and_then (woken s.wait_chan s ops) (λ t. some t.exit_code)
      ≡ and_then (first_event ops) code_of
unfolding woken apply
woken-code [] s = refl
woken-code (runs pid now ∷ ops) s = ground arith
woken-code (stops code now ∷ ops) s = ground arith
woken-code (restarts code now ∷ ops) s = ground arith
woken-code (pauses ∷ ops) s = ground (arith, woken-code ops (apply pauses s))
woken-code (unpauses ∷ ops) s = ground (arith, woken-code ops (apply unpauses s))

woken-pid :
    (ops : List Op) (s : State)
    → and_then (woken s.wait_chan s ops) (λ t. some t.pid) ≡ and_then (first_event ops) pid_of
unfolding woken apply
woken-pid [] s = refl
woken-pid (runs pid now ∷ ops) s = ground arith
woken-pid (stops code now ∷ ops) s = ground arith
woken-pid (restarts code now ∷ ops) s = ground arith
woken-pid (pauses ∷ ops) s = ground (arith, woken-pid ops (apply pauses s))
woken-pid (unpauses ∷ ops) s = ground (arith, woken-pid ops (apply unpauses s))

-- `WaitStop` on a container that runs returns the exit code that the first start, stop or restart
-- during the wait leaves, and nothing where there is none: so a restart wakes it too, with the
-- container still running, and a start gives it the code 0.
wait_stop-first_event :
    (s : State) (ops : List Op)
    → s.running ≡ true
    → wait_stop s ops ≡ and_then (first_event ops) code_of
unfolding wait_stop
wait_stop-first_event s ops h = ground (arith, woken-code ops s)

-- `WaitRunning` on a container that does not run returns the pid that the first start, stop or
-- restart during the wait leaves: 0 where that is no start.
wait_running-first_event :
    (s : State) (ops : List Op)
    → s.running ≡ false
    → wait_running s ops ≡ and_then (first_event ops) pid_of
unfolding wait_running
wait_running-first_event s ops h = ground (arith, woken-pid ops s)
