-- ===== src/Net/Bridge.antt =====
-- daemon/networkdriver/bridge/driver.go: the network interfaces of the containers, with the address
-- and the mapped ports of each. The jobs of the engine are functions of their arguments.
pub mod Retries
pub mod Links
pub mod Rules
mod Tests
use docker.Common.{
  ℕ, zero, suc, ◌+◌, ◌*◌, ◌%◌, Bool, true, false, ◌&&◌, not, Option, none, some, List, [], ◌∷◌,
  ◌++◌, Text, codes, leb, ◌==◌, if◌then◌else◌, nat_eq, text_eq,
}
use docker.Common.Int.{ℤ, pos, negsuc}
use docker.Common.Results.{Result, ok, err}
use docker.Common.Maps.{lookup, insert}
use docker.Common.Strings.Decimal.{print_decimal}
use docker.Common.Strings.Split.{split}
use docker.Net.Ipv4.{Ip, IpNet, Mask, bytes}
use docker.Net.IpAllocator
use docker.Net.IpAllocator.{NetworkSet, request_ip, release_ip}
use docker.Net.PortAllocator
use docker.Net.PortAllocator.{is_known, tcp, udp}
use docker.Net.Iptables.{Runs, RawResult, failed, output, Tool, raw}
use docker.Net.PortMapper
use docker.Net.PortMapper.{Addr, tcp_addr, udp_addr, other, Mapper, Host, map_port, unmap_port}

pub record NetworkInterface : Type 0 where
  pub ip : Ip
  pub port_mappings : List Addr

-- `currentInterfaces`, and the state of the packages that the driver calls.
pub record Driver : Type 0 where
  pub ips : NetworkSet
  pub mapper : Mapper
  pub interfaces : List (Text × NetworkInterface)

-- The variables that the set up of the driver leaves, and net.ParseIP with the text of the address
-- that it reads.
pub record Settings : Type 0 where
  pub bridge_network : IpNet
  pub bridge_iface : Text
  pub default_binding_ip : Option Text
  pub parse_ip : Text → Option Text

abbrev pub max_allocated_port_attempts : ℕ
max_allocated_port_attempts = 10

pub data JobError : Type 0 where
  ip_error : IpAllocator.Error → JobError
  map_error : PortMapper.Error → JobError
  no_network_information : Text → JobError
  unsupported_address_type : Text → JobError
  rule_failed : JobError
  rule_output : Text → JobError

-- ip.String() of an IPv4 address
unfoldable pub ip_to_text : Ip → Text
ip_to_text a =
    print_decimal a.b0
    ++ (b'.' ∷ (print_decimal a.b1 ++ (b'.' ∷ (print_decimal a.b2 ++ (b'.' ∷ print_decimal a.b3)))))

-- The leading ones of a byte, if nothing follows them.
byte_ones : ℕ → ℕ → Option ℕ
byte_ones zero v = if v == 0 then some 0 else none
byte_ones (suc n) v =
    let rest = byte_ones n (v * 2 % 256) in
    if leb 128 v
    then elim rest [ none ↦ none | some k ↦ some (suc k) ]
    else (if v == 0 then some 0 else none)

abbrev all_zero : List ℕ → Bool
all_zero [] = true
all_zero (b ∷ bs) = b == 0 && all_zero bs

mask_ones : List ℕ → Option ℕ
unfolding byte_ones
mask_ones [] = some 0
mask_ones (b ∷ bs) =
    let rest = mask_ones bs in
    if b == 255
    then elim rest [ none ↦ none | some k ↦ some (8 + k) ]
    else (if all_zero bs then byte_ones 8 b else none)

-- mask.Size(), without the number of all bits
unfoldable pub mask_size : Mask → ℕ
unfolding mask_ones
mask_size m = elim (mask_ones (bytes m)) [ none ↦ 0 | some k ↦ k ]

-- What the job allocate_interface writes out.
pub record Allocation : Type 0 where
  pub ip : Ip
  pub mask : Mask
  pub gateway : Ip
  pub bridge : Text
  pub ip_prefix_len : ℕ

unfoldable pub set_interface :
    Settings → Text → Driver → NetworkSet × IpAllocator.Result → Driver × Result JobError Allocation
set_interface c id d (ips, IpAllocator.err e) = (record d { ips = ips }, err (ip_error e))
set_interface c id d (ips, IpAllocator.ok a) = (
  record d {
    ips = ips;
    interfaces = insert id (record { ip = a; port_mappings = [] }) d.interfaces;
  },
  ok (record {
    ip = a;
    mask = c.bridge_network.mask;
    gateway = c.bridge_network.ip;
    bridge = c.bridge_iface;
    ip_prefix_len = mask_size c.bridge_network.mask;
  }),
)

-- Allocate. The requested address is what net.ParseIP makes of the variable of the job.
unfoldable pub allocate : Settings → Text → Option Ip → Driver → Driver × Result JobError Allocation
allocate c id requested_ip d = set_interface c id d (request_ip d.ips c.bridge_network requested_ip)

-- The loop of Release, which only logs errors.
unfoldable pub unmap_all : Host → List Addr → Mapper → Mapper
unmap_all h [] s = s
unmap_all h (nat ∷ nats) s = unmap_all h nats (unmap_port h s nat).0

-- Release. The interface stays in the map.
unfoldable pub release : Settings → Host → Text → Driver → Driver × Result JobError (Unit {0})
release c h id d = elim (lookup id d.interfaces) [
  | none ↦ (d, err (no_network_information id))
  | some i ↦ (
    record d {
      mapper = unmap_all h i.port_mappings d.mapper;
      ips = release_ip d.ips c.bridge_network i.ip;
    },
    ok tt,
  )
]

-- The variables of the job. A container port that is negative, which is no port, is left out.
pub record PortRequest : Type 0 where
  pub id : Text
  pub host_ip : Text
  pub host_port : ℤ
  pub container_port : ℕ
  pub proto : Text

abbrev pub is_zero : ℤ → Bool
is_zero (pos n) = n == 0
is_zero (negsuc n) = false

-- A round of the loop: what it makes of Map's result, and how it goes on.
unfoldable pub after_map :
    ℤ
    → (Mapper × PortMapper.Result Addr → Option (Mapper × PortMapper.Result Addr))
    → Mapper × PortMapper.Result Addr
    → Option (Mapper × PortMapper.Result Addr)
after_map host_port again (s, PortMapper.ok host) = some (s, PortMapper.ok host)
after_map host_port again
      (s, PortMapper.err (PortMapper.port_error (PortAllocator.port_already_allocated ip port))) =
    let rest =
      again (
        s,
        PortMapper.err (PortMapper.port_error (PortAllocator.port_already_allocated ip port)),
      ) in
    if is_zero host_port
    then rest
    else some
        (s, PortMapper.err (PortMapper.port_error (PortAllocator.port_already_allocated ip port)))
after_map host_port again (s, PortMapper.err e) = some (s, PortMapper.err e)

-- The loop of AllocatePort, by the attempts that are left, with the result so far.
unfoldable pub try_map :
    ℕ
    → Host
    → Addr
    → Option Text
    → ℤ
    → ℕ
    → Mapper × PortMapper.Result Addr
    → Option (Mapper × PortMapper.Result Addr)
unfolding after_map
try_map fuel h container ip host_port zero r = some r
try_map fuel h container ip host_port (suc n) r =
    elim (map_port fuel h r.0 container ip host_port) [
      | none ↦ none
      | some mapped ↦ after_map host_port (try_map fuel h container ip host_port n) mapped
    ]

abbrev pub container_addr : Text → Ip → ℕ → Addr
container_addr proto ip port =
    if proto == tcp
    then tcp_addr (some (ip_to_text ip)) port
    else (if proto == udp then udp_addr (some (ip_to_text ip)) port else other)

unfoldable pub add_port :
    Text
    → NetworkInterface
    → Driver
    → Mapper × PortMapper.Result Addr
    → Driver × Result JobError Addr
add_port id i d (s, PortMapper.err e) = (record d { mapper = s }, err (map_error e))
add_port id i d (s, PortMapper.ok host) = (
  record d {
    mapper = s;
    interfaces =
        insert id (record i { port_mappings = i.port_mappings ++ (host ∷ []) }) d.interfaces;
  },
  ok host,
)

abbrev pub binding_ip : Settings → Text → Option Text
binding_ip c host_ip = if host_ip == [] then c.default_binding_ip else c.parse_ip host_ip

-- AllocatePort. `none` is a call for a container with no interface, which is a nil pointer in the
-- source, or a search for a port that does not end. Before the first attempt there is no error.
unfoldable pub allocate_port :
    ℕ → Settings → Host → PortRequest → Driver → Option (Driver × Result JobError Addr)
unfolding add_port
allocate_port fuel c h r d =
    if not (is_known r.proto)
    then some (d, err (unsupported_address_type r.proto))
    else elim (lookup r.id d.interfaces) [
      | none ↦ none
      | some i ↦
          elim (try_map fuel h (container_addr r.proto i.ip r.container_port)
            (binding_ip c r.host_ip) r.host_port max_allocated_port_attempts
            (d.mapper, PortMapper.ok other)) [
              | none ↦ none
              | some mapped ↦ some (add_port r.id i d mapped)
            ]
    ]

-- The text of a port `80/tcp`, taken apart; `none` where the index of the protocol is out of range.
unfoldable pub split_port : Text → Option (Text × Text)
split_port p = elim (split b'/' p) [
  | [] ↦ none
  | port ∷ [] ↦ none
  | port ∷ proto ∷ parts ↦ some (port, proto)
]

unfoldable pub link_args : Text → Text → Text → Text → Text → Text → Text → List Text
link_args action bridge proto from port_flag port to =
    action
    ∷ codes "FORWARD"
    ∷ codes "-i"
    ∷ bridge
    ∷ codes "-o"
    ∷ bridge
    ∷ codes "-p"
    ∷ proto
    ∷ codes "-s"
    ∷ from
    ∷ port_flag
    ∷ port
    ∷ codes "-d"
    ∷ to
    ∷ codes "-j"
    ∷ codes "ACCEPT"
    ∷ []

-- How one rule ends the job: an error that is not ignored, or an output.
unfoldable pub link_error : Bool → RawResult → Option JobError
link_error ignore_errors failed = if ignore_errors then none else some rule_failed
link_error ignore_errors (output []) = none
link_error ignore_errors (output (c ∷ o)) = some (rule_output (c ∷ o))

-- Rules, one after the other, up to the first error.
unfoldable pub run_rules : Tool → Bool → List (List Text) → Runs → Option JobError × Runs
run_rules t ignore_errors [] runs = (none, runs)
run_rules t ignore_errors (args ∷ rules) runs =
    let (r, runs') = raw t args runs in
    let rest = run_rules t ignore_errors rules runs' in
    elim (link_error ignore_errors r) [ none ↦ rest | some e ↦ (some e, runs') ]

pub record Link : Type 0 where
  pub action : Text
  pub parent_ip : Text
  pub child_ip : Text
  pub ignore_errors : Bool

-- The two rules of a port.
unfoldable pub port_rules : Settings → Link → Text × Text → List (List Text)
port_rules c l (port, proto) =
    link_args l.action c.bridge_iface proto l.parent_ip (codes "--dport") port l.child_ip
    ∷ link_args l.action c.bridge_iface proto l.child_ip (codes "--sport") port l.parent_ip
    ∷ []

-- LinkContainers. `none` is a port with no protocol, whose index is out of range in the source.
unfoldable pub link_containers :
    Settings → Tool → Link → List Text → Runs → Option (Option JobError × Runs)
unfolding split_port
link_containers c t l [] runs = some (none, runs)
link_containers c t l (p ∷ ports) runs = elim (split_port p) [
  | none ↦ none
  | some port ↦
      let (failed', runs') = run_rules t l.ignore_errors (port_rules c l port) runs in
      let rest = link_containers c t l ports runs' in
      elim failed' [ none ↦ rest | some e ↦ some (some e, runs') ]
]
