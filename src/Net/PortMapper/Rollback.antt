-- ===== src/Net/PortMapper/Rollback.antt =====
-- What Map and Unmap leave behind, on every branch.
use docker.Common.{
  ℕ, ◌≤◌, ◌≡◌, ◌∙◌, refl, sym, ap, true, inl, inr, Option, none, some, Text, arith, Bool-cases,
  Option-cases, ==_iff, nat_eq, text_eq,
}
use docker.Common.Int.{ℤ}
use docker.Common.Maps.{lookup, insert, contains, lookup-insert}
use docker.Net.PortAllocator
use docker.Net.PortAllocator.{
  IpMapping, ports_of, request_port, release_port, is_known, search_fuel, tcp, udp,
}
use docker.Net.PortAllocator.Requests.{
  IsReady, request_port-Granted, release_port-request_port, request_port_failed,
}
use docker.Net.Iptables.{add}
use docker.Net.PortMapper.{
  Addr, tcp_addr, udp_addr, other, Mapping, Mapper, Host, Error, Result, ok, err, port_error,
  unknown_backend_address_type, port_mapped_for_ip, port_not_mapped, forward_failed, proxy_failed,
  get_key, forward_mapping, new_mapping, add_mapping, release_on_error, allocated, map_port,
}

-- What `add_mapping` does to the mappings.
abbrev pub Added : Mapper → Mapping → Mapper × Result Addr → Type 0
Added s m (s', ok host) =
    (host ≡ m.host)
    × (s'.ports ≡ s.ports)
    × (lookup (get_key m.host) s.current_mappings ≡ none)
    × (s'.current_mappings ≡ insert (get_key m.host) m s.current_mappings)
Added s m (s', err proxy_failed) =
    (s'.ports ≡ s.ports)
    × (lookup (get_key m.host) s.current_mappings ≡ none)
    × (s'.current_mappings ≡ insert (get_key m.host) m s.current_mappings)
Added s m (s', err e) = (s'.ports ≡ s.ports) × (s'.current_mappings ≡ s.current_mappings)

pub add_mapping-Added : (h : Host) (s : Mapper) (m : Mapping) → Added s m (add_mapping h s m)
unfolding add_mapping
add_mapping-Added h s m = elim (Option-cases (lookup (get_key m.host) s.current_mappings)) [
  | inr (old, e) ↦ rw (e, add_mapping) (refl, refl)
  | inl e ↦ elim (Bool-cases (forward_mapping h add m s.runs).0) [
    | inr failed ↦ rw (e, failed, add_mapping) (refl, refl)
    | inl done ↦ elim (Bool-cases (h.starts m.userland_proxy)) [
      | inr stopped ↦ rw (e, done, stopped, add_mapping) (refl, e, refl)
      | inl started ↦ rw (e, done, started, add_mapping) (refl, refl, e, refl)
    ]
  ]
]

-- What `Map` does to the mappings. A success adds one, for a host address that had none. So does a
-- failure of the proxy. Every other failure leaves the mappings.
abbrev pub Mapped : Mapper → Addr → Option (Mapper × Result Addr) → Type 0
Mapped s c none = Unit
Mapped s c (some (s', ok host)) =
    (m : Mapping) × (m.host ≡ host)
    × (m.container ≡ c)
    × (lookup (get_key host) s.current_mappings ≡ none)
    × (s'.current_mappings ≡ insert (get_key host) m s.current_mappings)
Mapped s c (some (s', err proxy_failed)) =
    (m : Mapping) × (m.container ≡ c)
    × (lookup (get_key m.host) s.current_mappings ≡ none)
    × (s'.current_mappings ≡ insert (get_key m.host) m s.current_mappings)
Mapped s c (some (s', err e)) = s'.current_mappings ≡ s.current_mappings

module _ (h : Host) (s : Mapper) (ip : Option Text) where
  released-Mapped :
      (g : IpMapping) (proto : Text) (port : ℕ) (m : Mapping) (r : Mapper × Result Addr)
      → Added (record s { ports = g }) m r
      → Mapped s m.container (some (release_on_error ip proto port r))
  unfolding release_on_error
  released-Mapped g proto port m (s', ok host) a = (
    m,
    sym a.0,
    refl,
    ap (λ (t : Addr). lookup (get_key t) s.current_mappings) a.0 ∙ a.2,
    a.3 ∙ ap (λ (t : Addr). insert (get_key t) m s.current_mappings) (sym a.0),
  )
  released-Mapped g proto port m (s', err proxy_failed) a = (m, refl, a.1, a.2)
  released-Mapped g proto port m (s', err (port_error e)) a = a.1
  released-Mapped g proto port m (s', err unknown_backend_address_type) a = a.1
  released-Mapped g proto port m (s', err port_mapped_for_ip) a = a.1
  released-Mapped g proto port m (s', err port_not_mapped) a = a.1
  released-Mapped g proto port m (s', err forward_failed) a = a.1

  allocated-Mapped :
      (proto : Text) (addr : Option Text → ℕ → Addr) (c : Addr)
      (r : Option (IpMapping × PortAllocator.Result ℕ))
      → Mapped s c (allocated h s proto addr c ip r)
  unfolding allocated
  allocated-Mapped proto addr c none = tt
  allocated-Mapped proto addr c (some (g, PortAllocator.err e)) = refl
  allocated-Mapped proto addr c (some (g, PortAllocator.ok port)) =
      let m = new_mapping proto addr c ip port in
      released-Mapped g proto port m _ (add_mapping-Added h (record s { ports = g }) m)

  -- The mappings after `Map`, whatever it returns: a success adds the one mapping of the container to
  -- the returned host address, which had none; if the userland proxy does not start the mapping is
  -- added too, and stays; any other failure leaves the mappings.
  pub map_port-Mapped : (fuel : ℕ) (c : Addr) (port : ℤ) → Mapped s c (map_port fuel h s c ip port)
  unfolding map_port
  map_port-Mapped fuel (tcp_addr cip cport) port =
      allocated-Mapped tcp tcp_addr (tcp_addr cip cport) _
  map_port-Mapped fuel (udp_addr cip cport) port =
      allocated-Mapped udp udp_addr (udp_addr cip cport) _
  map_port-Mapped fuel other port = refl

-- Every set of ports has the ports that it had.
abbrev pub SamePorts : IpMapping → IpMapping → Type 0
SamePorts g g' =
    (jp : Option Text) (qroto : Text) (j : ℕ)
    → contains j (ports_of g' jp qroto).p ≡ contains j (ports_of g jp qroto).p

-- `Map` ends, and where it fails no port stays allocated that was not before.
abbrev pub RolledBack : Mapper → Option (Mapper × Result Addr) → Type 0
RolledBack s none = ⊥
RolledBack s (some (s', ok host)) = Unit
RolledBack s (some (s', err e)) = SamePorts s.ports s'.ports

-- The protocol of a container's address.
abbrev pub proto_of : Addr → Text
proto_of (tcp_addr ip port) = tcp
proto_of (udp_addr ip port) = udp
proto_of other = tcp

ports-Added :
    (s : Mapper) (m : Mapping) (s' : Mapper) (x : Error)
    → Added s m (s', err x)
    → s'.ports ≡ s.ports
ports-Added s m s' proxy_failed a = a.0
ports-Added s m s' (port_error e) a = a.0
ports-Added s m s' unknown_backend_address_type a = a.0
ports-Added s m s' port_mapped_for_ip a = a.0
ports-Added s m s' port_not_mapped a = a.0
ports-Added s m s' forward_failed a = a.0

module _ (h : Host) (s : Mapper) (ip : Option Text) (proto : Text) (known : is_known proto ≡ true)
    (port : ℤ) (fuel : ℕ) (enough : search_fuel ≤ fuel)
    (ready : IsReady port (ports_of s.ports ip proto)) where
  released-RolledBack :
      (g : IpMapping) (q : ℕ) (m : Mapping) (r : Mapper × Result Addr)
      → request_port fuel s.ports ip proto port ≡ some (g, PortAllocator.ok q)
      → Added (record s { ports = g }) m r
      → RolledBack s (some (release_on_error ip proto q r))
  unfolding release_on_error
  released-RolledBack g q m (s', ok host) e a = tt
  released-RolledBack g q m (s', err x) e a = λ jp qroto j.
      ap (λ (t : IpMapping). contains j (ports_of (release_port t ip proto q) jp qroto).p)
        (ports-Added (record s { ports = g }) m s' x a)
      ∙ release_port-request_port s.ports ip proto port fuel q g jp qroto j enough known ready e

  allocated-RolledBack :
      (addr : Option Text → ℕ → Addr) (c : Addr) (r : Option (IpMapping × PortAllocator.Result ℕ))
      → request_port fuel s.ports ip proto port ≡ r
      → RolledBack s (allocated h s proto addr c ip r)
  unfolding allocated
  allocated-RolledBack addr c none e =
      rw e at (request_port-Granted s.ports ip proto port fuel enough known ready)
  allocated-RolledBack addr c (some (g, PortAllocator.err x)) e = λ jp qroto j.
      request_port_failed s.ports ip proto port fuel g x jp qroto j enough known ready e
  allocated-RolledBack addr c (some (g, PortAllocator.ok q)) e =
      let m = new_mapping proto addr c ip q in
      released-RolledBack g q m _ e (add_mapping-Added h (record s { ports = g }) m)

-- Only where a given port is asked for, or the last search for the address and the protocol (TCP's, for
-- a container address of another type) left off in the range but above its first port, and with
-- `search_fuel` rounds or more: `Map` ends, and where it fails, for whatever reason, the ports that are
-- allocated are those that were allocated before.
pub map_port-RolledBack :
    (h : Host) (s : Mapper) (ip : Option Text) (c : Addr) (port : ℤ) (fuel : ℕ)
    → search_fuel ≤ fuel
    → IsReady port (ports_of s.ports ip (proto_of c))
    → RolledBack s (map_port fuel h s c ip port)
unfolding map_port
map_port-RolledBack h s ip (tcp_addr cip cport) port fuel enough ready =
    allocated-RolledBack h s ip tcp refl port fuel enough ready tcp_addr (tcp_addr cip cport) _ refl
map_port-RolledBack h s ip (udp_addr cip cport) port fuel enough ready =
    allocated-RolledBack h s ip udp refl port fuel enough ready udp_addr (udp_addr cip cport) _ refl
map_port-RolledBack h s ip other port fuel enough ready = λ jp qroto j. refl

add_mapping_taken :
    (h : Host) (s : Mapper) (m old : Mapping)
    → lookup (get_key m.host) s.current_mappings ≡ some old
    → add_mapping h s m ≡ (s, err port_mapped_for_ip)
unfolding add_mapping
add_mapping_taken h s m old e = rw (e, add_mapping)

-- After a `Map` whose userland proxy did not start, every later `Map` to the same host address fails
-- with ErrPortMappedForIP, with whatever container and proxy, until the mappings change again.
add_mapping_stale :
    (h h' : Host) (s s' t : Mapper) (m m' : Mapping)
    → add_mapping h s m ≡ (s', err proxy_failed)
    → get_key m'.host ≡ get_key m.host
    → t.current_mappings ≡ s'.current_mappings
    → add_mapping h' t m' ≡ (t, err port_mapped_for_ip)
add_mapping_stale h h' s s' t m m' e same kept =
    let a : Added s m (s', err proxy_failed) = rw e at (add_mapping-Added h s m) in
    add_mapping_taken h' t m' m (
      ground (
        arith,
        ap (lookup (get_key m'.host)) (kept ∙ a.2),
        lookup-insert (get_key m.host) (get_key m'.host) m s.current_mappings,
        ==_iff (get_key m.host) (get_key m'.host),
      ))
