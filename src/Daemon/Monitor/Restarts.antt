-- ===== src/Daemon/Monitor/Restarts.antt =====
-- How often the monitor restarts a process.
use docker.Common.{
  ℕ, zero, suc, ◌+◌, ◌<◌, ◌≤◌, ◌≡◌, ◌≢◌, ◌∙◌, ap, sym, refl, Bool, true, false, not, ◌&&◌, inl, inr,
  List, [], ◌∷◌, arith, codes, ◌==◌, text_eq, nat_eq, Bool-cases, if◌then◌else◌, length,
}
use docker.Common.Int.{ℤ, pos, negsuc}
use docker.Daemon.Monitor.{
  RestartPolicy, Monitor, Round, Machine, Outcome, running, returned, is_zero, is_reached,
  should_restart, exit_on_next, reset_monitor, round, loop, start_monitor, end_round, run_process,
  after_process, wait_round, stop_container, callback, increment, is_first, and_then,
}

-- What a part of a round leaves alone.
abbrev pub Keeps : Machine → Machine → Type 0
Keeps x y =
    (y.monitor.failure_count ≡ x.monitor.failure_count)
    × (y.monitor.restart_policy ≡ x.monitor.restart_policy)
    × (y.restart_count ≡ x.restart_count)

pub run_process-Keeps : (r : Round) (x : Machine) → Keeps x (run_process r x)
unfolding run_process callback exit_on_next
run_process-Keeps r x = ground arith

pub wait_round-Keeps : (r : Round) (x : Machine) → Keeps x (wait_round r x)
unfolding wait_round exit_on_next
wait_round-Keeps r x = ground arith

abbrev pub is_success : Round → Bool
is_success r = not r.run_fails && is_zero r.exit_status

pub after_process_lem :
    (r : Round) (x : Machine)
    → ((after_process r x).monitor.failure_count
        ≡ (if is_success r then 0 else x.monitor.failure_count + 1))
      × ((after_process r x).monitor.restart_policy ≡ x.monitor.restart_policy)
      × ((after_process r x).restart_count ≡ x.restart_count)
      × ((after_process r x).monitor.should_stop ≡ x.monitor.should_stop)
unfolding after_process reset_monitor
after_process_lem r x = ground arith

stop_container-count :
    (r : Round) (x : Machine) → (stop_container r x).restart_count ≡ x.restart_count
unfolding stop_container
stop_container-count r x = refl

-- Under "on-failure" with a maximum, a restart means a failure, and fewer failures than the maximum.
should_restart_on_failure :
    (m : Monitor) (status : ℤ) (limit : ℕ)
    → m.restart_policy.name ≡ codes "on-failure"
    → m.restart_policy.maximum_retry_count ≡ pos limit
    → limit ≢ 0
    → should_restart m status ≡ true
    → (m.failure_count < limit) × (is_zero status ≡ false)
unfolding should_restart
should_restart_on_failure m status limit name at some_limit e =
    ground (arith, always_no, name_yes, ap (λ (n : ℤ). is_reached n m.failure_count) at)
  where
    always_no : (m.restart_policy.name == codes "always") ≡ false
    always_no = rw name

    name_yes : (m.restart_policy.name == codes "on-failure") ≡ true
    name_yes = rw name

-- One more failure in a row, under a policy that is still the same.
abbrev Continued : ℕ → Machine → Outcome → Type 0
Continued limit x (running y) =
    (y.monitor.failure_count ≡ x.monitor.failure_count + 1)
    × (x.monitor.failure_count + 1 < limit)
    × (y.monitor.restart_policy ≡ x.monitor.restart_policy)
    × (y.restart_count ≡ increment x.restart_count)
Continued limit x (returned failed y) = y.restart_count ≡ increment x.restart_count

module _ (r : Round) (x : Machine) (limit : ℕ)
    (name : x.monitor.restart_policy.name ≡ codes "on-failure")
    (at : x.monitor.restart_policy.maximum_retry_count ≡ pos limit) (some_limit : limit ≢ 0) where
  end_round-Continued :
      (y : Machine)
      → y.monitor.failure_count ≡ (if is_success r then 0 else x.monitor.failure_count + 1)
      → y.monitor.restart_policy ≡ x.monitor.restart_policy
      → y.restart_count ≡ increment x.restart_count
      → Continued limit x (end_round r y)
  unfolding end_round
  end_round-Continued y failures policy count =
      elim (Bool-cases (should_restart y.monitor r.exit_status)) [
        | inr no_restart ↦ simp no_restart (stop_container-count r y ∙ count)
        | inl again ↦
            let (below, status) =
              should_restart_on_failure y.monitor r.exit_status limit
                (ap (λ (p : RestartPolicy). p.name) policy ∙ name)
                (ap (λ (p : RestartPolicy). p.maximum_retry_count) policy ∙ at) some_limit again in
            let failed : y.monitor.failure_count ≡ x.monitor.failure_count + 1 = ground arith in
            let (same_failures, same_policy, same_count) = wait_round-Keeps r y in
            elim (Bool-cases (wait_round r y).monitor.should_stop) [
              | inl stop ↦
                  simp (again, stop) (stop_container-count r (wait_round r y) ∙ same_count ∙ count)
              | inr go ↦
                  simp (again, go)
                    (same_failures ∙ failed, omega arith, same_policy ∙ policy, same_count ∙ count)
            ]
      ]

  round-Continued : Continued limit x (round r x)
  unfolding round
  round-Continued = elim (Bool-cases r.log_fails) [
    | inl no_log ↦ simp no_log
    | inr log ↦
        let x' = record x { restart_count = increment x.restart_count } in
        let y = run_process r x' in
        let (failures, policy, count) = run_process-Keeps r x' in
        elim (Bool-cases (r.run_fails && is_first y.restart_count)) [
          | inl first ↦ simp (log, first) count
          | inr later ↦
              let (failures', policy', count', _) = after_process_lem r y in
              simp (log, later)
                (end_round-Continued (after_process r y) (ground arith) (policy' ∙ policy)
                  (count' ∙ count))
        ]
  ]

-- The restart count at the head of a round, after so many failures in a row.
abbrev as_count : ℕ → ℤ
as_count zero = negsuc 0
as_count (suc n) = pos n

increment-as_count : (n : ℕ) → increment (as_count n) ≡ pos n
increment-as_count zero = refl
increment-as_count (suc n) = refl

as_count-suc : (m n : ℕ) → m ≡ n + 1 → as_count m ≡ pos n
as_count-suc zero n e = absurd (omega arith)
as_count-suc (suc m) n e = ap pos (omega arith)

-- The loop has returned, after at most `n` rounds of the process.
abbrev pub Returned : ℕ → Outcome → Type 0
Returned n (running y) = ⊥
Returned n (returned failed y) = (k : ℕ) × (k < n) × (y.restart_count ≡ pos k)

next-Returned :
    (rs : List Round) (x : Machine) (limit : ℕ) (o : Outcome)
    → ((y : Machine) → Continued limit x (running y) → Returned limit (loop rs y))
    → x.monitor.failure_count < limit
    → x.restart_count ≡ as_count x.monitor.failure_count
    → Continued limit x o
    → Returned limit (and_then o (loop rs))
unfolding and_then
next-Returned rs x limit (running y) rest below count c = rest y c
next-Returned rs x limit (returned failed y) rest below count c = (
  x.monitor.failure_count,
  below,
  c ∙ ap increment count ∙ increment-as_count x.monitor.failure_count,
)

loop-Returned :
    (rs : List Round) (x : Machine) (limit : ℕ)
    → x.monitor.restart_policy.name ≡ codes "on-failure"
    → x.monitor.restart_policy.maximum_retry_count ≡ pos limit
    → x.monitor.failure_count < limit
    → limit ≤ x.monitor.failure_count + length rs
    → x.restart_count ≡ as_count x.monitor.failure_count
    → Returned limit (loop rs x)
unfolding loop
loop-Returned [] x limit name at below enough count = absurd (omega arith)
loop-Returned (r ∷ rs) x limit name at below enough count =
    next-Returned rs x limit (round r x)
      (λ y c.
        loop-Returned rs y limit (ap (λ (p : RestartPolicy). p.name) c.2 ∙ name)
          (ap (λ (p : RestartPolicy). p.maximum_retry_count) c.2 ∙ at) (omega arith) (omega arith)
          (c.3
            ∙ ap increment count
            ∙ increment-as_count x.monitor.failure_count
            ∙ sym (as_count-suc _ _ c.0)))
      below count (round-Continued r x limit name at (omega arith))

-- Under "on-failure" with a maximum above 0, from a monitor that has counted no failure, whatever the
-- rounds are, if the world makes as many as the maximum, the monitor returns within as many rounds as
-- the maximum: the process is run at most that many times, and restarted at most one time less.
pub start_monitor-Returned :
    (rs : List Round) (x : Machine) (limit : ℕ)
    → x.monitor.restart_policy.name ≡ codes "on-failure"
    → x.monitor.restart_policy.maximum_retry_count ≡ pos limit
    → x.monitor.failure_count ≡ 0
    → 0 < limit
    → limit ≤ length rs
    → Returned limit (start_monitor rs x)
unfolding start_monitor
start_monitor-Returned rs x limit name at fresh some_limit enough =
    loop-Returned rs (record x { restart_count = negsuc 0 }) limit name at (omega arith)
      (omega arith) (sym (ap as_count fresh))
