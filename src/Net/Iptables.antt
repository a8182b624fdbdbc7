-- ===== src/Net/Iptables.antt =====
-- pkg/iptables/iptables.go: the rules of a chain. The program `iptables` is outside of the
-- repository: what it answers, after the commands run so far, is the parameter `exec`.
use docker.Common.{
  ℕ, Bool, true, false, Option, none, some, List, [], ◌∷◌, ◌++◌, Text, codes, ◌==◌, ◌||◌, text_eq,
  nat_eq, if◌then◌else◌,
}
use docker.Common.Strings.{includes, has_byte}
use docker.Common.Strings.Decimal.{print_decimal}

pub data Action : Type 0 where
  add delete : Action

abbrev pub action_text : Action → Text
action_text add = codes "-A"
action_text delete = codes "-D"

pub record Chain : Type 0 where
  pub name : Text
  pub bridge : Text

-- What `Raw` returns: an error, or the output.
pub data RawResult : Type 0 where
  failed : RawResult
  output : Text → RawResult

-- The command lines run so far, the last one first.
abbrev pub Runs : Type 0
Runs = List (List Text)

pub record Tool : Type 0 where
  pub supports_xlock : Bool
  pub exec : Runs → List Text → RawResult

abbrev waiting : Text
waiting = codes "waiting for it to exit"

drop_lock_message : RawResult → RawResult
drop_lock_message failed = failed
drop_lock_message (output o) = output (if includes o waiting then [] else o)

unfoldable pub raw : Tool → List Text → Runs → RawResult × Runs
unfolding drop_lock_message
raw tool args runs =
    let args' = if tool.supports_xlock then codes "--wait" ∷ args else args in
    (drop_lock_message (tool.exec runs args'), args' ∷ runs)

-- Both ways in which the callers of `Raw` fail: an error, and an output that is not empty.
unfoldable pub is_done : RawResult → Bool
is_done failed = false
is_done (output []) = true
is_done (output (c ∷ o)) = false

-- ip.String(), where `none` is a nil IP.
abbrev pub ip_text : Option Text → Text
ip_text none = codes "<nil>"
ip_text (some ip) = ip

-- ip.IsUnspecified()
abbrev pub is_unspecified : Option Text → Bool
is_unspecified none = false
is_unspecified (some ip) = ip == codes "0.0.0.0" || ip == codes "::"

-- net.JoinHostPort
abbrev join_host_port : Text → Text → Text
join_host_port host port =
    if has_byte b':' host then b'[' ∷ (host ++ codes "]:" ++ port) else host ++ (b':' ∷ port)

abbrev forward_action : Action → Text
forward_action add = codes "-I"
forward_action delete = codes "-D"

dnat_args : Chain → Action → Option Text → ℕ → Text → Text → ℕ → List Text
dnat_args c action ip port proto dest_addr dest_port =
    let daddr = if is_unspecified ip then codes "0/0" else ip_text ip in
    codes "-t"
    ∷ codes "nat"
    ∷ action_text action
    ∷ c.name
    ∷ codes "-p"
    ∷ proto
    ∷ codes "-d"
    ∷ daddr
    ∷ codes "--dport"
    ∷ print_decimal port
    ∷ codes "!"
    ∷ codes "-i"
    ∷ c.bridge
    ∷ codes "-j"
    ∷ codes "DNAT"
    ∷ codes "--to-destination"
    ∷ join_host_port dest_addr (print_decimal dest_port)
    ∷ []

accept_args : Chain → Action → Text → Text → ℕ → List Text
accept_args c action proto dest_addr dest_port =
    forward_action action
    ∷ codes "FORWARD"
    ∷ codes "!"
    ∷ codes "-i"
    ∷ c.bridge
    ∷ codes "-o"
    ∷ c.bridge
    ∷ codes "-p"
    ∷ proto
    ∷ codes "-d"
    ∷ dest_addr
    ∷ codes "--dport"
    ∷ print_decimal dest_port
    ∷ codes "-j"
    ∷ codes "ACCEPT"
    ∷ []

-- `Chain.Forward`: whether both rules were set, and the commands run.
unfoldable pub forward_rules :
    Tool → Chain → Action → Option Text → ℕ → Text → Text → ℕ → Runs → Bool × Runs
unfolding dnat_args accept_args
forward_rules tool c action ip port proto dest_addr dest_port runs =
    let (r, runs') = raw tool (dnat_args c action ip port proto dest_addr dest_port) runs in
    let (r', runs'') = raw tool (accept_args c action proto dest_addr dest_port) runs' in
    if is_done r then (is_done r', runs'') else (false, runs')
