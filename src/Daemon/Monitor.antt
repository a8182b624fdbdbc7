-- ===== src/Daemon/Monitor.antt =====
-- daemon/monitor.go: the monitor of a container's process, and its restart policy. The world of one
-- round of the loop in `Start` is a `Round`: whether the logs open, what `daemon.Run` returns, whether
-- it calls back with a pid before, how long the process ran, and where a stop request (ExitOnNext)
-- comes. The loop runs over the list of its rounds, and is still running where they are used up.
pub mod Restarts
pub mod Ending
mod Tests
use docker.Common.{
  ℕ, zero, suc, ◌+◌, ◌*◌, ◌%◌, ◌^◌, Bool, true, false, not, ◌&&◌, ◌||◌, Option, none, some, List,
  [], ◌∷◌, ◌++◌, Text, codes, ltb, leb, if◌then◌else◌, nat_eq, text_eq, ◌==◌,
}
use docker.Common.Int.{ℤ, pos, negsuc}
use docker.Daemon.State.{State, set_running, set_stopped, set_restarting}

abbrev pub default_time_increment : ℕ
default_time_increment = 100

-- runconfig.RestartPolicy
pub record RestartPolicy : Type 0 where
  pub name : Text
  pub maximum_retry_count : ℤ

pub record Monitor : Type 0 where
  pub restart_policy : RestartPolicy
  pub failure_count : ℕ
  pub should_stop : Bool
  pub start_signaled : Bool
  pub stop_closed : Bool
  pub time_increment : ℕ

pub new_container_monitor : RestartPolicy → Monitor
new_container_monitor policy = record {
  restart_policy = policy;
  failure_count = 0;
  should_stop = false;
  start_signaled = false;
  stop_closed = false;
  time_increment = default_time_increment;
}

-- `ExitOnNext`: the second close of a channel would panic.
pub exit_on_next : Monitor → Monitor
exit_on_next m = if m.should_stop then m else record m { should_stop = true; stop_closed = true }

abbrev pub is_zero : ℤ → Bool
is_zero (pos n) = n == 0
is_zero (negsuc n) = false

-- One round of the loop, as the world makes it.
pub record Round : Type 0 where
  pub log_fails : Bool
  pub run_fails : Bool
  pub exit_status : ℤ
  pub started : Option ℕ
  pub started_at : ℕ
  pub nanoseconds : ℕ
  pub finished_at : ℕ
  pub stop_in_run : Bool
  pub stop_in_wait : Bool

abbrev pub ten_seconds : ℕ
ten_seconds = 10000000000

-- `resetMonitor`; the increment is an `int` of 64 bits.
pub reset_monitor : Bool → ℕ → Monitor → Monitor
reset_monitor successful nanoseconds m = record m {
  time_increment =
      if ltb ten_seconds nanoseconds then default_time_increment else m.time_increment * 2 % 2 ^ 64;
  failure_count = if successful then 0 else m.failure_count + 1;
}

-- The maximum is not 0, and no greater than the number of failures; it may be negative.
abbrev pub is_reached : ℤ → ℕ → Bool
is_reached (pos n) failures = not (n == 0) && leb n failures
is_reached (negsuc n) failures = true

pub should_restart : Monitor → ℤ → Bool
should_restart m exit_status =
    if m.should_stop
    then false
    else if m.restart_policy.name == codes "always"
    then true
    else if m.restart_policy.name == codes "on-failure"
    then (if is_reached m.restart_policy.maximum_retry_count m.failure_count
        then false
        else not (is_zero exit_status))
    else false

pub data Event : Type 0 where
  start die : Event

-- The monitor with its container: the run state, the restart count and the events logged. `closed`
-- is that the container's resources have been cleaned up.
pub record Machine : Type 0 where
  pub monitor : Monitor
  pub state : State
  pub restart_count : ℤ
  pub events : List Event
  pub closed : Bool

pub data Outcome : Type 0 where
  running : Machine → Outcome
  returned : Bool → Machine → Outcome

abbrev pub increment : ℤ → ℤ
increment (pos n) = pos (suc n)
increment (negsuc zero) = pos 0
increment (negsuc (suc n)) = negsuc n

abbrev pub log_event : Event → Machine → Machine
log_event e x = record x { events = x.events ++ (e ∷ []) }

-- The callback of `daemon.Run`.
pub callback : Option ℕ → ℕ → Machine → Machine
callback none now x = x
callback (some pid) now x = record x {
  state = set_running pid now x.state;
  monitor = record x.monitor { start_signaled = true };
}

abbrev stop_if : Bool → Machine → Machine
stop_if b x = record x { monitor = if b then exit_on_next x.monitor else x.monitor }

-- `defer`: the monitor closes the container's resources, whatever it returns.
abbrev close_container : Bool → Machine → Outcome
close_container failed x = returned failed (record x { closed = true })

-- The part of a round from the start of the process to its end.
pub run_process : Round → Machine → Machine
run_process r x = stop_if r.stop_in_run (callback r.started r.started_at (log_event start x))

abbrev successful : Round → Bool
successful r = not r.run_fails && is_zero r.exit_status

pub after_process : Round → Machine → Machine
after_process r x = record x { monitor = reset_monitor (successful r) r.nanoseconds x.monitor }

-- SetRestarting, "die", and the wait for the next restart, which a stop request ends.
pub wait_round : Round → Machine → Machine
wait_round r x =
    stop_if r.stop_in_wait
      (log_event die (record x { state = set_restarting r.exit_status r.finished_at x.state }))

pub stop_container : Round → Machine → Machine
stop_container r x = record x { state = set_stopped r.exit_status r.finished_at x.state }

-- A round from `if m.shouldRestart` on: `none` is `continue`.
pub end_round : Round → Machine → Outcome
end_round r x =
    if should_restart x.monitor r.exit_status
    then (let y = wait_round r x in
        if y.monitor.should_stop
        then close_container r.run_fails (stop_container r y)
        else running y)
    else close_container r.run_fails (log_event die (stop_container r x))

abbrev is_first : ℤ → Bool
is_first (pos n) = n == 0
is_first (negsuc n) = false

-- One round of the loop.
pub round : Round → Machine → Outcome
round r x =
    let x' = record x { restart_count = increment x.restart_count } in
    if r.log_fails
    then close_container true x'
    else (let y = run_process r x' in
        if r.run_fails && is_first y.restart_count
        then close_container true y
        else end_round r (after_process r y))

and_then : Outcome → (Machine → Outcome) → Outcome
and_then (running x) f = f x
and_then (returned failed x) f = returned failed x

-- The `for` loop, over the rounds that the world makes.
pub loop : List Round → Machine → Outcome
loop [] x = running x
loop (r ∷ rs) x = and_then (round r x) (loop rs)

pub start_monitor : List Round → Machine → Outcome
start_monitor rs x = loop rs (record x { restart_count = negsuc 0 })
