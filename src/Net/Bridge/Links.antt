-- ===== src/Net/Bridge/Links.antt =====
-- The rules that a link of two containers runs.
use docker.Common.{
  ◌≡◌, refl, sym, ap, ◌∙◌, Bool, Option, none, some, inl, inr, List, [], ◌∷◌, ◌++◌, Text, codes,
  arith, Option-cases, if◌then◌else◌,
}
use mathlib.Core.Option.{some-injective}
use docker.Net.Iptables.{Runs, Tool, raw}
use docker.Net.Bridge.{
  Settings, JobError, split_port, link_error, run_rules, Link, port_rules, link_containers,
}

-- The command line of a rule, with the flag of the lock.
abbrev pub command : Tool → List Text → List Text
command t args = if t.supports_xlock then codes "--wait" ∷ args else args

-- The command lines of rules, the last one first, before those that were run already.
abbrev pub commands : Tool → List (List Text) → Runs → Runs
commands t [] runs = runs
commands t (args ∷ rules) runs = commands t rules (command t args ∷ runs)

-- Texts of ports, and the ports and protocols that they are split into.
abbrev pub AreSplit : List Text → List (Text × Text) → Type 0
AreSplit [] [] = Unit {0}
AreSplit [] (q ∷ qs) = ⊥
AreSplit (p ∷ ps) [] = ⊥
AreSplit (p ∷ ps) (q ∷ qs) = (split_port p ≡ some q) × AreSplit ps qs

-- The rules of all ports in their order.
abbrev pub all_rules : Settings → Link → List (Text × Text) → List (List Text)
all_rules c l [] = []
all_rules c l (port ∷ ports) = port_rules c l port ++ all_rules c l ports

module _ (t : Tool) (ignore_errors : Bool) where
  raw-command : (args : List Text) (runs : Runs) → (raw t args runs).1 ≡ command t args ∷ runs
  unfolding raw
  raw-command args runs = refl

  run_rules_fine :
      (args : List Text) (rules : List (List Text)) (runs : Runs)
      → link_error ignore_errors (raw t args runs).0 ≡ none
      → run_rules t ignore_errors (args ∷ rules) runs
        ≡ run_rules t ignore_errors rules (raw t args runs).1
  unfolding run_rules
  run_rules_fine args rules runs e = rw (e, run_rules) refl

  run_rules_failed :
      (args : List Text) (rules : List (List Text)) (runs : Runs) {x : JobError}
      → link_error ignore_errors (raw t args runs).0 ≡ some x
      → run_rules t ignore_errors (args ∷ rules) runs ≡ (some x, (raw t args runs).1)
  unfolding run_rules
  run_rules_failed args rules runs e = rw (e, run_rules) refl

  run_rules-commands :
      (rules : List (List Text)) (runs : Runs)
      → (run_rules t ignore_errors rules runs).0 ≡ none
      → (run_rules t ignore_errors rules runs).1 ≡ commands t rules runs
  unfolding run_rules
  run_rules-commands [] runs e = refl
  run_rules-commands (args ∷ rules) runs e =
      elim (Option-cases (link_error ignore_errors (raw t args runs).0)) [
        | inl fine ↦
            ap (λ (r : Option JobError × Runs). r.1) (run_rules_fine args rules runs fine)
            ∙ run_rules-commands rules (raw t args runs).1 (
                ap (λ (r : Option JobError × Runs). r.0) (sym (run_rules_fine args rules runs fine))
                ∙ e)
            ∙ ap (commands t rules) (raw-command args runs)
        | inr (x, failed) ↦ absurd (
            ground (
              arith,
              ap (λ (r : Option JobError × Runs). r.0) (run_rules_failed args rules runs failed),
            ))
      ]

  -- What follows rules that have run.
  abbrev then_rules : Option JobError × Runs → List (List Text) → Option JobError × Runs
  then_rules (none, runs) rules = run_rules t ignore_errors rules runs
  then_rules (some e, runs) rules = (some e, runs)

  run_rules-append :
      (xs ys : List (List Text)) (runs : Runs)
      → run_rules t ignore_errors (xs ++ ys) runs
        ≡ then_rules (run_rules t ignore_errors xs runs) ys
  unfolding run_rules
  run_rules-append [] ys runs = refl
  run_rules-append (args ∷ xs) ys runs =
      elim (Option-cases (link_error ignore_errors (raw t args runs).0)) [
        | inl fine ↦
            run_rules_fine args (xs ++ ys) runs fine
            ∙ run_rules-append xs ys (raw t args runs).1
            ∙ ap (λ (r : _). then_rules r ys) (sym (run_rules_fine args xs runs fine))
        | inr (x, failed) ↦
            run_rules_failed args (xs ++ ys) runs failed
            ∙ ap (λ (r : _). then_rules r ys) (sym (run_rules_failed args xs runs failed))
      ]

module _ (c : Settings) (t : Tool) (l : Link) where
  after_port :
      (r : Option JobError × Runs) (ports : List Text) (rules : List (List Text))
      → ((runs : Runs)
          → link_containers c t l ports runs ≡ some (run_rules t l.ignore_errors rules runs))
      → ◌≡◌ {A = Option (Option JobError × Runs)}
          (elim r.0 [ none ↦ link_containers c t l ports r.1 | some e ↦ some (some e, r.1) ])
          (some (then_rules t l.ignore_errors r rules))
  after_port (none, runs) ports rules h = h runs
  after_port (some e, runs) ports rules h = refl

  link_containers_cons :
      (p : Text) (ports : List Text) (port : Text × Text) (runs : Runs)
      → split_port p ≡ some port
      → link_containers c t l (p ∷ ports) runs ≡ (
          let r = run_rules t l.ignore_errors (port_rules c l port) runs in
          elim r.0 [ none ↦ link_containers c t l ports r.1 | some e ↦ some (some e, r.1) ])
  unfolding link_containers
  link_containers_cons p ports port runs e = rw (e, link_containers) refl

  -- A link runs the two rules of each of its ports, one after the other, until one fails.
  pub link_containers-run_rules :
      (ps : List Text) (ports : List (Text × Text)) (runs : Runs)
      → AreSplit ps ports
      → link_containers c t l ps runs
        ≡ some (run_rules t l.ignore_errors (all_rules c l ports) runs)
  unfolding link_containers run_rules
  link_containers-run_rules [] [] runs a = refl
  link_containers-run_rules [] (q ∷ qs) runs a = absurd a
  link_containers-run_rules (p ∷ ps) [] runs a = absurd a
  link_containers-run_rules (p ∷ ps) (port ∷ ports) runs a =
      link_containers_cons p ps port runs a.0
      ∙ after_port (run_rules t l.ignore_errors (port_rules c l port) runs) ps (all_rules c l ports)
          (λ runs'. link_containers-run_rules ps ports runs' a.1)
      ∙ ap some (
          sym (run_rules-append t l.ignore_errors (port_rules c l port) (all_rules c l ports) runs))

  -- Where every port has a protocol and the job of a link ends without an error, the tool was run
  -- for the two rules of each port, in the order of the ports, and for nothing else.
  link_containers-commands :
      (ps : List Text) (ports : List (Text × Text)) (runs : Runs) {runs' : Runs}
      → AreSplit ps ports
      → link_containers c t l ps runs ≡ some (none, runs')
      → runs' ≡ commands t (all_rules c l ports) runs
  link_containers-commands ps ports runs {runs'} a e =
      let same : run_rules t l.ignore_errors (all_rules c l ports) runs ≡ (none, runs') =
        some-injective _ _ (sym (link_containers-run_rules ps ports runs a) ∙ e) in
      sym (ap (λ (r : Option JobError × Runs). r.1) same)
      ∙ run_rules-commands t l.ignore_errors (all_rules c l ports) runs
          (ap (λ (r : Option JobError × Runs). r.0) same)
