-- ===== src/Net/PortMapper.antt =====
-- daemon/networkdriver/portmapper/mapper.go. The lock makes Map and Unmap one step each on the
-- mappings, the port allocator and the commands run. The userland proxy is a process: whether it
-- starts is the parameter `starts`. Fuel is that of the port allocator's search.
mod Rollback
pub mod Errors
mod Unmapping
mod Keys
mod Tests
use docker.Common.{
  ℕ, ◌≡◌, Bool, true, false, Option, none, some, List, [], ◌∷◌, ◌++◌, Text, codes, text_eq, nat_eq,
  if◌then◌else◌,
}
use docker.Common.Int.{ℤ}
use docker.Common.Maps.{lookup, insert, erase}
use docker.Common.Strings.Decimal.{print_decimal}
use docker.Net.PortAllocator.{IpMapping, request_port, release_port, tcp, udp}
use docker.Net.PortAllocator
use docker.Net.Iptables.{Action, add, delete, Chain, Tool, Runs, forward_rules, ip_text}

-- `net.Addr`: an address without an IP is a nil IP, `other` is neither *TCPAddr nor *UDPAddr.
pub data Addr : Type 0 where
  tcp_addr udp_addr : Option Text → ℕ → Addr
  other : Addr

-- The command line of docker-proxy: NewProxyCommand's arguments.
pub record UserlandProxy : Type 0 where
  pub proto : Text
  pub host_ip : Option Text
  pub host_port : ℕ
  pub container_ip : Option Text
  pub container_port : ℕ

pub record Mapping : Type 0 where
  pub proto : Text
  pub userland_proxy : UserlandProxy
  pub host : Addr
  pub container : Addr

pub data Error : Type 0 where
  port_error : PortAllocator.Error → Error
  unknown_backend_address_type port_mapped_for_ip port_not_mapped : Error
  forward_failed proxy_failed : Error

pub data Result {ℓ} (A : Type ℓ) : Type ℓ where
  ok : A → Result A
  err : Error → Result A

pub record Mapper : Type 0 where
  pub ports : IpMapping
  pub current_mappings : List (Text × Mapping)
  pub runs : Runs

-- What is outside: the tool, the chain that is set, if any, and whether a proxy starts.
pub record Host : Type 0 where
  pub tool : Tool
  pub chain : Option Chain
  pub starts : UserlandProxy → Bool

addr_key : Option Text → ℕ → Text → Text
addr_key ip port proto = ip_text ip ++ (b':' ∷ (print_decimal port ++ (b'/' ∷ proto)))

pub get_key : Addr → Text
unfolding addr_key
get_key (tcp_addr ip port) = addr_key ip port tcp
get_key (udp_addr ip port) = addr_key ip port udp
get_key other = []

abbrev pub get_ip_and_port : Addr → Option Text × ℕ
get_ip_and_port (tcp_addr ip port) = (ip, port)
get_ip_and_port (udp_addr ip port) = (ip, port)
get_ip_and_port other = (none, 0)

-- `forward`: nothing to do where no chain is set.
pub forward : Host → Action → Text → Option Text → ℕ → Text → ℕ → Runs → Bool × Runs
forward h action proto ip port dest dest_port runs = elim h.chain [
  | none ↦ (true, runs)
  | some c ↦ forward_rules h.tool c action ip port proto dest dest_port runs
]

abbrev new_proxy : Text → Option Text → ℕ → Addr → UserlandProxy
new_proxy proto ip port container = record {
  proto = proto;
  host_ip = ip;
  host_port = port;
  container_ip = (get_ip_and_port container).0;
  container_port = (get_ip_and_port container).1;
}

-- `m`, with the proxy that the source sets when the rules are set.
abbrev new_mapping : Text → (Option Text → ℕ → Addr) → Addr → Option Text → ℕ → Mapping
new_mapping proto addr container ip port = record {
  proto = proto;
  userland_proxy = new_proxy proto ip port container;
  host = addr ip port;
  container = container;
}

-- The deferred release of the port, on an error.
abbrev released : Option Text → Text → ℕ → Mapper → Mapper
released ip proto port s = record s { ports = release_port s.ports ip proto port }

-- `forward` with a mapping's addresses.
abbrev pub forward_mapping : Host → Action → Mapping → Runs → Bool × Runs
forward_mapping h action m runs =
    forward h action m.proto (get_ip_and_port m.host).0 (get_ip_and_port m.host).1
      (ip_text (get_ip_and_port m.container).0) (get_ip_and_port m.container).1 runs

-- The end of `Map`: the mapping is stored and its proxy is started; the rules are undone where it
-- does not start, and the mapping stays.
start_mapping : Host → Mapper → Text → Mapping → Mapper × Result Addr
start_mapping h s key m =
    let s' = record s { current_mappings = insert key m s.current_mappings } in
    if h.starts m.userland_proxy
    then (s', ok m.host)
    else (record s' { runs = (forward_mapping h delete m s'.runs).1 }, err proxy_failed)

-- `Map` from the key on, with the port allocated.
pub add_mapping : Host → Mapper → Mapping → Mapper × Result Addr
unfolding start_mapping
add_mapping h s m =
    let key = get_key m.host in
    let (done, runs) = forward_mapping h add m s.runs in
    elim (lookup key s.current_mappings) [
      | some _ ↦ (s, err port_mapped_for_ip)
      | none ↦
          if done
          then start_mapping h (record s { runs = runs }) key m
          else (record s { runs = runs }, err forward_failed)
    ]

-- The deferred function.
release_on_error : Option Text → Text → ℕ → Mapper × Result Addr → Mapper × Result Addr
release_on_error ip proto port (s, ok host) = (s, ok host)
release_on_error ip proto port (s, err e) = (released ip proto port s, err e)

allocated :
    Host
    → Mapper
    → Text
    → (Option Text → ℕ → Addr)
    → Addr
    → Option Text
    → Option (IpMapping × PortAllocator.Result ℕ)
    → Option (Mapper × Result Addr)
unfolding add_mapping release_on_error
allocated h s proto addr container ip none = none
allocated h s proto addr container ip (some (g, PortAllocator.err e)) =
    some (record s { ports = g }, err (port_error e))
allocated h s proto addr container ip (some (g, PortAllocator.ok port)) = some (
    release_on_error ip proto port
      (add_mapping h (record s { ports = g }) (new_mapping proto addr container ip port)))

unfoldable pub map_port : ℕ → Host → Mapper → Addr → Option Text → ℤ → Option (Mapper × Result Addr)
unfolding allocated
map_port fuel h s (tcp_addr cip cport) ip port =
    allocated h s tcp tcp_addr (tcp_addr cip cport) ip (request_port fuel s.ports ip tcp port)
map_port fuel h s (udp_addr cip cport) ip port =
    allocated h s udp udp_addr (udp_addr cip cport) ip (request_port fuel s.ports ip udp port)
map_port fuel h s other ip port = some (s, err unknown_backend_address_type)

pub release_host : Addr → IpMapping → IpMapping
release_host (tcp_addr ip port) g = release_port g ip tcp port
release_host (udp_addr ip port) g = release_port g ip udp port
release_host other g = g

-- `Unmap`. The proxy's stop is not observed.
unfoldable pub unmap_port : Host → Mapper → Addr → Mapper × Result (Unit {0})
unfolding release_host
unmap_port h s host = elim (lookup (get_key host) s.current_mappings) [
  | none ↦ (s, err port_not_mapped)
  | some m ↦
      let (done, runs) = forward_mapping h delete m s.runs in
      let s' = record s {
        current_mappings = erase (get_key host) s.current_mappings;
        runs = runs;
      } in
      if done
      then (record s' { ports = release_host host s.ports }, ok tt)
      else (s', err forward_failed)
]
