-- ===== src/Config/Runconfig.antt =====
-- The configuration of a container: runconfig/config.go. A map of keys is the list of its keys; the
-- map of the exposed ports is `none` where it is nil.
pub mod Compare
pub mod Merge
mod Tests
use docker.Common.{
  ℕ, ◌≡◌, ◌↔◌, Bool, true, false, not, Option, none, some, List, [], Text, arith, nat_beq,
  nat_beq_iff, Eq,
}
use docker.Common.Int.{ℤ, pos, negsuc}
use docker.Config.Ports.{PortSet}

abbrev pub int_beq : ℤ → ℤ → Bool
int_beq (pos m) (pos n) = nat_beq m n
int_beq (pos m) (negsuc n) = false
int_beq (negsuc m) (pos n) = false
int_beq (negsuc m) (negsuc n) = nat_beq m n

pub int_beq_iff : (i j : ℤ) → (int_beq i j ≡ true) ↔ (i ≡ j)
int_beq_iff (pos m) (pos n) = ground (arith, nat_beq_iff m n)
int_beq_iff (pos m) (negsuc n) = ground arith
int_beq_iff (negsuc m) (pos n) = ground arith
int_beq_iff (negsuc m) (negsuc n) = ground (arith, nat_beq_iff m n)

instance abbrev pub int_eq : Eq ℤ
int_eq = record { equal = int_beq; equal_iff = int_beq_iff }

abbrev pub bool_beq : Bool → Bool → Bool
bool_beq true b = b
bool_beq false b = not b

pub bool_beq_iff : (a b : Bool) → (bool_beq a b ≡ true) ↔ (a ≡ b)
bool_beq_iff a b = ground arith

instance abbrev pub bool_eq : Eq Bool
bool_eq = record { equal = bool_beq; equal_iff = bool_beq_iff }

pub record Config : Type 0 where
  pub hostname : Text
  pub domainname : Text
  pub user : Text
  pub memory : ℤ
  pub memory_swap : ℤ
  pub cpu_shares : ℤ
  pub cpuset : Text
  pub attach_stdin : Bool
  pub attach_stdout : Bool
  pub attach_stderr : Bool
  pub port_specs : List Text
  pub exposed_ports : Option PortSet
  pub tty : Bool
  pub open_stdin : Bool
  pub stdin_once : Bool
  pub env : List Text
  pub cmd : List Text
  pub image : Text
  pub volumes : List Text
  pub working_dir : Text
  pub entrypoint : List Text
  pub network_disabled : Bool
  pub on_build : List Text

-- The keys of the map of exposed ports: none of them if it is nil.
unfoldable pub ports_in : Option PortSet → PortSet
ports_in ports = elim ports [ none ↦ [] | some s ↦ s ]
