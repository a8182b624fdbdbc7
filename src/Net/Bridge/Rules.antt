-- ===== src/Net/Bridge/Rules.antt =====
-- setupIPTables of daemon/networkdriver/bridge/driver.go: the rules that the driver sets up for its
-- bridge, with Exists of pkg/iptables/iptables.go.
use docker.Common.{Bool, true, false, Option, none, some, List, [], ◌∷◌, Text, codes, if◌then◌else◌}
use docker.Net.Iptables.{Runs, Tool, RawResult, failed, output, raw}
use docker.Net.Bridge.{JobError, link_error}

-- Whether `iptables -C` ends without an error.
unfoldable pub succeeded : RawResult → Bool
succeeded failed = false
succeeded (output o) = true

unfoldable pub rule_exists : Tool → List Text → Runs → Bool × Runs
unfolding succeeded
rule_exists t args runs = let (r, runs') = raw t (codes "-C" ∷ args) runs in (succeeded r, runs')

-- A rule is put in where it does not exist; an error or an output ends the set up.
unfoldable pub ensure_rule : Tool → List Text → Runs → Option JobError × Runs
ensure_rule t args runs =
    let (found, checked) = rule_exists t args runs in
    let (r, inserted) = raw t (codes "-I" ∷ args) checked in
    if found then (none, checked) else (link_error false r, inserted)

-- The steps of the set up: a rule to delete, whatever the answer, and a rule to have.
pub data Step : Type 0 where
  delete_rule : List Text → Step
  need_rule : List Text → Step

unfoldable pub run_steps : Tool → List Step → Runs → Option JobError × Runs
run_steps t [] runs = (none, runs)
run_steps t (delete_rule args ∷ steps) runs = run_steps t steps (raw t (codes "-D" ∷ args) runs).1
run_steps t (need_rule args ∷ steps) runs =
    let (failed', runs') = ensure_rule t args runs in
    let rest = run_steps t steps runs' in elim failed' [ none ↦ rest | some e ↦ (some e, runs') ]

abbrev pub nat_args : Text → Text → List Text
nat_args bridge addr =
    codes "POSTROUTING"
    ∷ codes "-t"
    ∷ codes "nat"
    ∷ codes "-s"
    ∷ addr
    ∷ codes "!"
    ∷ codes "-o"
    ∷ bridge
    ∷ codes "-j"
    ∷ codes "MASQUERADE"
    ∷ []

abbrev pub forward_args : Text → Text → List Text
forward_args bridge target =
    codes "FORWARD" ∷ codes "-i" ∷ bridge ∷ codes "-o" ∷ bridge ∷ codes "-j" ∷ target ∷ []

abbrev pub outgoing_args : Text → List Text
outgoing_args bridge =
    codes "FORWARD"
    ∷ codes "-i"
    ∷ bridge
    ∷ codes "!"
    ∷ codes "-o"
    ∷ bridge
    ∷ codes "-j"
    ∷ codes "ACCEPT"
    ∷ []

abbrev pub existing_args : Text → List Text
existing_args bridge =
    codes "FORWARD"
    ∷ codes "-o"
    ∷ bridge
    ∷ codes "-m"
    ∷ codes "conntrack"
    ∷ codes "--ctstate"
    ∷ codes "RELATED,ESTABLISHED"
    ∷ codes "-j"
    ∷ codes "ACCEPT"
    ∷ []

abbrev pub setup_steps : Text → Text → Bool → List Step
setup_steps bridge addr icc =
    let unwanted = if icc then codes "DROP" else codes "ACCEPT" in
    let wanted = if icc then codes "ACCEPT" else codes "DROP" in
    need_rule (nat_args bridge addr)
    ∷ delete_rule (forward_args bridge unwanted)
    ∷ need_rule (forward_args bridge wanted)
    ∷ need_rule (outgoing_args bridge)
    ∷ need_rule (existing_args bridge)
    ∷ []

unfoldable pub setup_iptables : Tool → Text → Text → Bool → Runs → Option JobError × Runs
setup_iptables t bridge addr icc runs = run_steps t (setup_steps bridge addr icc) runs
