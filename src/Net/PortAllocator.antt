-- ===== src/Net/PortAllocator.antt =====
-- daemon/networkdriver/portallocator/portallocator.go. The mutex makes each function one step on
-- the global map, which the functions here take and return. An address is what the package reads
-- of it: `none` for nil, and otherwise its `String()`. The loop of `findPort` takes fuel, and
-- `none` says that the fuel ran out.
pub mod FindPort
pub mod Requests
pub mod Errors
mod Tests
use docker.Common.{
  ℕ, zero, suc, ◌+◌, ◌≡◌, Bool, true, false, ◌||◌, not, ◌&&◌, Option, none, some, List, [], ◌∷◌,
  Text, codes, ◌==◌, ltb, nat_eq, text_eq, if◌then◌else◌,
}
use docker.Common.Int.{ℤ, pos, negsuc}
use docker.Common.Maps.{lookup, insert, contains, add, remove}

abbrev pub begin_port_range : ℕ
begin_port_range = 49153

abbrev pub end_port_range : ℕ
end_port_range = 65535

-- The fuel of a search: more than the ports that a round passes.
abbrev pub search_fuel : ℕ
search_fuel = 16384

pub record PortMap : Type 0 where
  pub p : List ℕ
  pub last : ℕ

abbrev pub new_port_map : PortMap
new_port_map = record { p = []; last = 0 }

abbrev pub ProtoMap : Type 0
ProtoMap = List (Text × PortMap)

abbrev pub tcp : Text
tcp = codes "tcp"

abbrev pub udp : Text
udp = codes "udp"

abbrev pub new_proto_map : ProtoMap
new_proto_map = (tcp, new_port_map) ∷ (udp, new_port_map) ∷ []

abbrev pub IpMapping : Type 0
IpMapping = List (Text × ProtoMap)

pub data Error : Type 0 where
  all_ports_allocated unknown_protocol : Error
  port_already_allocated : Text → ℕ → Error

pub data Result {ℓ} (A : Type ℓ) : Type ℓ where
  ok : A → Result A
  err : Error → Result A

abbrev pub default_ip : Text
default_ip = codes "0.0.0.0"

abbrev pub ip_string : Option Text → Text
ip_string none = default_ip
ip_string (some ip) = ip

-- The `for` loop of `findPort`: the port that it takes, `err` if it comes back to `last`.
pub scan_ports : ℕ → ℕ → List ℕ → ℕ → Option (Result ℕ)
scan_ports zero last p port = none
scan_ports (suc fuel) last p port =
    let port' = if ltb end_port_range port then begin_port_range else port in
    let rest = scan_ports fuel last p (port' + 1) in
    if port == last
    then some (err all_ports_allocated)
    else if contains port' p
    then rest
    else some (ok port')

take_port : PortMap → Result ℕ → PortMap × Result ℕ
take_port pm (ok port) = (record { p = add port pm.p; last = port }, ok port)
take_port pm (err e) = (pm, err e)

taken : PortMap → Option (Result ℕ) → Option (PortMap × Result ℕ)
unfolding take_port
taken pm none = none
taken pm (some r) = some (take_port pm r)

unfoldable pub find_port : ℕ → PortMap → Option (PortMap × Result ℕ)
unfolding taken
find_port fuel pm =
    if pm.last == 0
    then some (take_port pm (ok begin_port_range))
    else taken pm (scan_ports fuel pm.last pm.p (pm.last + 1))

-- `protomap, ok := globalMap[ipstr]`, with a new map where there is none.
pub proto_map : IpMapping → Text → ProtoMap
proto_map g ip = elim (lookup ip g) [ none ↦ new_proto_map | some m ↦ m ]

-- `protomap[proto]`.
pub port_map : ProtoMap → Text → PortMap
port_map m proto = elim (lookup proto m) [ none ↦ new_port_map | some pm ↦ pm ]

-- The port map that an address and a protocol lead to.
unfoldable pub ports_of : IpMapping → Option Text → Text → PortMap
unfolding proto_map port_map
ports_of g ip proto = port_map (proto_map g (ip_string ip)) proto

-- The write through the pointers to the maps.
unfoldable pub store_ports : IpMapping → Option Text → Text → PortMap → IpMapping
unfolding proto_map
store_ports g ip proto pm = insert (ip_string ip) (insert proto pm (proto_map g (ip_string ip))) g

found : IpMapping → Option Text → Text → Option (PortMap × Result ℕ) → Option (IpMapping × Result ℕ)
found g ip proto none = none
found g ip proto (some (pm, r)) = some (store_ports g ip proto pm, r)

explicit_port : IpMapping → Option Text → Text → ℕ → IpMapping × Result ℕ
explicit_port g ip proto port =
    let pm = ports_of g ip proto in
    if contains port pm.p
    then (store_ports g ip proto pm, err (port_already_allocated (ip_string ip) port))
    else (store_ports g ip proto (record pm { p = add port pm.p }), ok port)

any_port : ℕ → IpMapping → Option Text → Text → Option (IpMapping × Result ℕ)
unfolding found
any_port fuel g ip proto = found g ip proto (find_port fuel (ports_of g ip proto))

request_valid : ℕ → IpMapping → Option Text → Text → ℤ → Option (IpMapping × Result ℕ)
unfolding any_port explicit_port
request_valid fuel g ip proto (pos (suc port)) = some (explicit_port g ip proto (suc port))
request_valid fuel g ip proto (pos zero) = any_port fuel g ip proto
request_valid fuel g ip proto (negsuc n) = any_port fuel g ip proto

abbrev pub is_known : Text → Bool
is_known proto = proto == tcp || proto == udp

unfoldable pub request_port : ℕ → IpMapping → Option Text → Text → ℤ → Option (IpMapping × Result ℕ)
unfolding request_valid
request_port fuel g ip proto port =
    if not (is_known proto)
    then some (g, err unknown_protocol)
    else request_valid fuel g ip proto port

-- A protocol that has no map is a nil pointer in the source: every caller passes "tcp" or "udp".
unfoldable pub release_port : IpMapping → Option Text → Text → ℕ → IpMapping
unfolding port_map
release_port g ip proto port = elim (lookup (ip_string ip) g) [
  | none ↦ g
  | some m ↦
      let pm = port_map m proto in
      insert (ip_string ip) (insert proto (record pm { p = remove port pm.p }) m) g
]

pub release_all : IpMapping → IpMapping
release_all g = []
