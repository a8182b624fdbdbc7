-- ===== src/Daemon/Monitor/Tests.antt =====
-- Runs of the monitor, and its theorems at concrete inputs.
use docker.Common.{ℕ, ◌≡◌, refl, true, false, some, [], ◌∷◌, Text, codes, arith, text_eq}
use docker.Common.Int.{ℤ, pos, negsuc}
use docker.Daemon.State.{new_state, set_restarting}
use docker.Daemon.Monitor.{
  RestartPolicy, Round, Machine, Outcome, running, returned, new_container_monitor, round, loop,
  start_monitor, run_process, callback, after_process, reset_monitor, end_round, should_restart,
  wait_round, stop_container, and_then, exit_on_next,
}
use docker.Daemon.Monitor.Restarts.{Returned, start_monitor-Returned}
use docker.Daemon.Monitor.Ending.{Ended, round-Ended, IsRunning, loop_always}

abbrev policy : Text → ℕ → RestartPolicy
policy name count = record { name = name; maximum_retry_count = pos count }

abbrev machine : RestartPolicy → Machine
machine p = record {
  monitor = new_container_monitor p;
  state = new_state;
  restart_count = pos 0;
  events = [];
  closed = false;
}

-- The process starts, runs for a second and exits with a status.
abbrev exits : ℤ → Round
exits status = record {
  log_fails = false;
  run_fails = false;
  exit_status = status;
  started = some 41;
  started_at = 100;
  nanoseconds = 1000000000;
  finished_at = 101;
  stop_in_run = false;
  stop_in_wait = false;
}

abbrev on_failure_two : Machine
on_failure_two = machine (policy (codes "on-failure") 2)

abbrev restart_count_of : Outcome → ℤ
restart_count_of (running y) = negsuc 9
restart_count_of (returned failed y) = y.restart_count

-- A maximum of two stops the container after its second failure: it was restarted once.
two_failures :
    restart_count_of
      (start_monitor (exits (pos 1) ∷ exits (pos 1) ∷ exits (pos 1) ∷ []) on_failure_two)
    ≡ pos 1
unfolding start_monitor loop round run_process callback after_process reset_monitor end_round
    should_restart wait_round stop_container and_then new_container_monitor exit_on_next
two_failures = refl

start_monitor-Returned_example :
    Returned 2 (start_monitor (exits (pos 1) ∷ exits (pos 1) ∷ exits (pos 1) ∷ []) on_failure_two)
unfolding new_container_monitor
start_monitor-Returned_example =
    start_monitor-Returned (exits (pos 1) ∷ exits (pos 1) ∷ exits (pos 1) ∷ []) on_failure_two 2
      refl refl refl (omega arith) (omega arith)

round-Ended_example :
    Ended
      (record (exits (pos 1)) { log_fails = true })
      (record on_failure_two { state = set_restarting (pos 1) 50 new_state; restart_count = pos 0 })
      (round
        (record (exits (pos 1)) { log_fails = true })
        (record on_failure_two {
          state = set_restarting (pos 1) 50 new_state;
          restart_count = pos 0;
        }))
round-Ended_example =
    round-Ended (record (exits (pos 1)) { log_fails = true })
      (record on_failure_two { state = set_restarting (pos 1) 50 new_state; restart_count = pos 0 })

loop_always_example :
    IsRunning (loop (exits (pos 0) ∷ exits (pos 1) ∷ []) (machine (policy (codes "always") 0)))
unfolding new_container_monitor
loop_always_example =
    loop_always (exits (pos 0) ∷ exits (pos 1) ∷ []) (machine (policy (codes "always") 0))
      ((refl, refl, refl, refl), ((refl, refl, refl, refl), tt)) refl refl
