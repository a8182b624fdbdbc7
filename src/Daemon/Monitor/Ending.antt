-- ===== src/Daemon/Monitor/Ending.antt =====
-- How a round of the monitor ends: the state that it leaves, stop requests, and "always".
use docker.Common.{
  ◌≡◌, ◌∙◌, ◌⊎◌, ap, refl, Bool, true, false, ◌&&◌, inl, inr, List, [], ◌∷◌, arith, codes, text_eq,
  ◌==◌, Bool-cases, if◌then◌else◌,
}
use docker.Common.Int.{ℤ, pos, negsuc}
use docker.Daemon.State.{State, set_stopped, set_restarting}
use docker.Daemon.Monitor.Restarts.{run_process-Keeps, wait_round-Keeps, after_process_lem}
use docker.Daemon.Monitor.{
  RestartPolicy, Monitor, Round, Machine, Outcome, running, returned, should_restart, exit_on_next,
  reset_monitor, round, loop, and_then, end_round, run_process, after_process, wait_round,
  stop_container, callback, increment, is_first,
}

-- The container does not run, and has no process.
abbrev pub IsStopped : State → Type 0
IsStopped s = (s.running ≡ false) × (s.restarting ≡ false) × (s.pid ≡ 0)

-- The ways in which a round ends.
abbrev pub Ended : Round → Machine → Outcome → Type 0
Ended r x (running y) =
    (x.monitor.should_stop ≡ false)
    × (r.stop_in_run ≡ false)
    × (r.stop_in_wait ≡ false)
    × (y.monitor.should_stop ≡ false)
    × (y.state.running ≡ true)
    × (y.state.restarting ≡ true)
    × (y.state.pid ≡ 0)
Ended r x (returned failed y) =
    (y.closed ≡ true)
    × (((r.log_fails ≡ true) × (failed ≡ true) × (y.state ≡ x.state))
        ⊎ (((r.run_fails ≡ true) × (failed ≡ true) × (y.restart_count ≡ pos 0))
            ⊎ IsStopped y.state))

stop_container-IsStopped : (r : Round) (x : Machine) → IsStopped (stop_container r x).state
unfolding stop_container set_stopped
stop_container-IsStopped r x = (refl, refl, refl)

wait_round_lem :
    (r : Round) (x : Machine)
    → ((wait_round r x).monitor.should_stop
        ≡ (if r.stop_in_wait then true else x.monitor.should_stop))
      × ((wait_round r x).state.running ≡ true)
      × ((wait_round r x).state.restarting ≡ true)
      × ((wait_round r x).state.pid ≡ 0)
unfolding wait_round exit_on_next set_restarting
wait_round_lem r x = ground arith

run_process-should_stop :
    (r : Round) (x : Machine)
    → (run_process r x).monitor.should_stop
      ≡ (if r.stop_in_run then true else x.monitor.should_stop)
unfolding run_process exit_on_next callback
run_process-should_stop r x = ground arith

after_process-should_stop :
    (r : Round) (x : Machine) → (after_process r x).monitor.should_stop ≡ x.monitor.should_stop
unfolding after_process reset_monitor
after_process-should_stop r x = refl

should_restart-stopped :
    (m : Monitor) (status : ℤ) → should_restart m status ≡ true → m.should_stop ≡ false
unfolding should_restart
should_restart-stopped m status h = ground arith

and_true : (a b : Bool) → (a && b) ≡ true → (a ≡ true) × (b ≡ true)
and_true a b h = ground arith

is_first-zero : (n : ℤ) → is_first n ≡ true → n ≡ pos 0
is_first-zero (pos n) h = ap pos (ground arith)
is_first-zero (negsuc n) h = cc

module _ (r : Round) (x : Machine) where
  end_round-Ended :
      (y : Machine)
      → y.monitor.should_stop ≡ (if r.stop_in_run then true else x.monitor.should_stop)
      → Ended r x (end_round r y)
  unfolding end_round
  end_round-Ended y stops = elim (Bool-cases (should_restart y.monitor r.exit_status)) [
    | inr no_restart ↦ simp no_restart (refl, inr (inr (stop_container-IsStopped r y)))
    | inl again ↦
        let goes = should_restart-stopped y.monitor r.exit_status again in
        let (stop, run, restart, pid) = wait_round_lem r y in
        elim (Bool-cases (wait_round r y).monitor.should_stop) [
          | inl asked ↦
              simp (again, asked) (refl, inr (inr (stop_container-IsStopped r (wait_round r y))))
          | inr free ↦
              simp (again, free) (ground arith, ground arith, ground arith, refl, run, restart, pid)
        ]
  ]

  -- How a round ends. If the loop goes on, nobody asked the monitor to stop, and the container counts
  -- as running and restarts, with no process. If it returns, the container's resources are closed,
  -- and one of three holds: the logs could not be opened, and the state is as it was before the
  -- round; the very first run failed; or the container is stopped.
  pub round-Ended : Ended r x (round r x)
  unfolding round
  round-Ended = elim (Bool-cases r.log_fails) [
    | inl no_log ↦ simp no_log (refl, inl (refl, refl, refl))
    | inr log ↦
        let x' = record x { restart_count = increment x.restart_count } in
        let y = run_process r x' in
        elim (Bool-cases (r.run_fails && is_first y.restart_count)) [
          | inl first ↦
              simp (log, first)
                (
                  refl,
                  inr (inl ((and_true _ _ first).0, refl, is_first-zero _ (and_true _ _ first).1)),
                )
          | inr later ↦
              simp (log, later)
                (end_round-Ended (after_process r y)
                  (after_process-should_stop r y ∙ run_process-should_stop r x'))
        ]
  ]

-- A round in which the logs open, the process does not fail and nobody asks the monitor to stop.
abbrev pub IsSmooth : Round → Type 0
IsSmooth r =
    (r.log_fails ≡ false)
    × (r.run_fails ≡ false)
    × (r.stop_in_run ≡ false)
    × (r.stop_in_wait ≡ false)

abbrev pub AreSmooth : List Round → Type 0
AreSmooth [] = Unit
AreSmooth (r ∷ rs) = IsSmooth r × AreSmooth rs

abbrev pub IsRunning : Outcome → Type 0
IsRunning (running y) = Unit
IsRunning (returned failed y) = ⊥

-- Under "always" such a round is followed by another.
abbrev GoesOn : Outcome → Type 0
GoesOn (running y) =
    (y.monitor.restart_policy.name ≡ codes "always") × (y.monitor.should_stop ≡ false)
GoesOn (returned failed y) = ⊥

should_restart_always :
    (m : Monitor) (status : ℤ)
    → m.restart_policy.name ≡ codes "always"
    → m.should_stop ≡ false
    → should_restart m status ≡ true
unfolding should_restart
should_restart_always m status name free = ground (arith, always)
  where
    always : (m.restart_policy.name == codes "always") ≡ true
    always = rw name

end_round-GoesOn :
    (r : Round) (y : Machine)
    → r.stop_in_wait ≡ false
    → y.monitor.restart_policy.name ≡ codes "always"
    → y.monitor.should_stop ≡ false
    → GoesOn (end_round r y)
unfolding end_round
end_round-GoesOn r y wait name free =
    let again = should_restart_always y.monitor r.exit_status name free in
    let kept = (wait_round-Keeps r y).1 in
    let go : (wait_round r y).monitor.should_stop ≡ false = (wait_round_lem r y).0 ∙ ground arith in
    simp (again, go) (ap (λ (p : RestartPolicy). p.name) kept ∙ name, refl)

round-GoesOn :
    (r : Round) (x : Machine)
    → IsSmooth r
    → x.monitor.restart_policy.name ≡ codes "always"
    → x.monitor.should_stop ≡ false
    → GoesOn (round r x)
unfolding round
round-GoesOn r x (log, run, stop, wait) name free =
    let x' = record x { restart_count = increment x.restart_count } in
    let y = run_process r x' in
    let policy = (after_process_lem r y).1 ∙ (run_process-Keeps r x').1 in
    let stops = after_process-should_stop r y ∙ run_process-should_stop r x' in
    simp (log, run)
      (end_round-GoesOn r (after_process r y) wait
        (ap (λ (p : RestartPolicy). p.name) policy ∙ name) (stops ∙ ground arith))

and_then-IsRunning :
    (o : Outcome) (f : Machine → Outcome)
    → GoesOn o
    → ((y : Machine) → GoesOn (running y) → IsRunning (f y))
    → IsRunning (and_then o f)
unfolding and_then
and_then-IsRunning (running y) f g rest = rest y g
and_then-IsRunning (returned failed y) f g rest = absurd g

-- Under "always", as long as the logs open, the process is run without an internal error and nobody
-- asks the monitor to stop, the monitor never returns, whatever the exit statuses are.
pub loop_always :
    (rs : List Round) (x : Machine)
    → AreSmooth rs
    → x.monitor.restart_policy.name ≡ codes "always"
    → x.monitor.should_stop ≡ false
    → IsRunning (loop rs x)
unfolding loop
loop_always [] x h name free = tt
loop_always (r ∷ rs) x h name free =
    and_then-IsRunning (round r x) (loop rs) (round-GoesOn r x h.0 name free)
      (λ y g. loop_always rs y h.1 g.0 g.1)
