-- ===== src/Net/PortMapper/Unmapping.antt =====
-- What Unmap leaves behind, on every branch, and Unmap after Map.
use docker.Common.{
  ℕ, ◌≤◌, ◌≡◌, ◌∙◌, refl, sym, ap, subst, Bool, true, false, ◌&&◌, ◌||◌, not, inl, inr, Option,
  none, some, Text, arith, Bool-cases, Option-cases, ◌==◌, ==_iff, if◌then◌else◌, nat_eq, text_eq,
}
use mathlib.Core.Option.{some-injective}
use docker.Common.Int.{ℤ}
use docker.Common.Maps.{
  lookup, insert, erase, contains, lookup-insert, lookup-erase, contains-remove,
}
use docker.Net.PortAllocator
use docker.Net.PortAllocator.{
  IpMapping, ports_of, request_port, release_port, is_known, search_fuel, ip_string, tcp, udp,
}
use docker.Net.PortAllocator.Requests.{IsReady, ports_of-release, release_port-request_port}
use docker.Net.Iptables.{delete}
use docker.Net.PortMapper.{
  Addr, tcp_addr, udp_addr, other, Mapping, Mapper, Host, Result, ok, err, port_not_mapped,
  forward_failed, port_error, unknown_backend_address_type, port_mapped_for_ip, proxy_failed,
  get_key, forward_mapping, new_mapping, add_mapping, release_on_error, release_host, allocated,
  map_port, unmap_port,
}
use docker.Net.PortMapper.Rollback.{
  Added, add_mapping-Added, SamePorts, proto_of, Mapped, map_port-Mapped,
}

-- What `Unmap` does, by its result.
abbrev Unmapping : Host → Mapper → Addr → Mapper × Result (Unit {0}) → Type 0
Unmapping h s host (s', ok u) =
    (m : Mapping) × (lookup (get_key host) s.current_mappings ≡ some m)
    × ((forward_mapping h delete m s.runs).0 ≡ true)
    × (s'.current_mappings ≡ erase (get_key host) s.current_mappings)
    × (s'.ports ≡ release_host host s.ports)
Unmapping h s host (s', err port_not_mapped) =
    (lookup (get_key host) s.current_mappings ≡ none) × (s' ≡ s)
Unmapping h s host (s', err forward_failed) =
    (m : Mapping) × (lookup (get_key host) s.current_mappings ≡ some m)
    × ((forward_mapping h delete m s.runs).0 ≡ false)
    × (s'.current_mappings ≡ erase (get_key host) s.current_mappings)
    × (s'.ports ≡ s.ports)
Unmapping h s host (s', err e) = ⊥

unmap_port-Unmapping :
    (h : Host) (s : Mapper) (host : Addr) → Unmapping h s host (unmap_port h s host)
unfolding unmap_port
unmap_port-Unmapping h s host = elim (Option-cases (lookup (get_key host) s.current_mappings)) [
  | inl e ↦ rw (e, unmap_port) (e, refl)
  | inr (m, e) ↦ elim (Bool-cases (forward_mapping h delete m s.runs).0) [
    | inl done ↦ rw (e, done, unmap_port) (m, e, done, refl, refl)
    | inr failed ↦ rw (e, failed, unmap_port) (m, e, failed, refl, refl)
  ]
]

-- A port of TCP, or of UDP, at an address.
abbrev pub is_tcp_port : Addr → Option Text → Text → ℕ → Bool
is_tcp_port (tcp_addr ip port) jp proto j =
    (ip_string ip == ip_string jp) && (proto == tcp && port == j)
is_tcp_port (udp_addr ip port) jp proto j = false
is_tcp_port other jp proto j = false

abbrev pub is_udp_port : Addr → Option Text → Text → ℕ → Bool
is_udp_port (tcp_addr ip port) jp proto j = false
is_udp_port (udp_addr ip port) jp proto j =
    (ip_string ip == ip_string jp) && (proto == udp && port == j)
is_udp_port other jp proto j = false

abbrev pub is_port_of : Addr → Option Text → Text → ℕ → Bool
is_port_of host jp proto j = is_tcp_port host jp proto j || is_udp_port host jp proto j

release_host-contains :
    (host : Addr) (g : IpMapping) (jp : Option Text) (proto : Text) (j : ℕ)
    → contains j (ports_of (release_host host g) jp proto).p
      ≡ (not (is_port_of host jp proto j) && contains j (ports_of g jp proto).p)
unfolding release_host
release_host-contains (tcp_addr ip port) g jp proto j = ground (
  arith,
  ports_of-release g ip jp tcp proto port,
  contains-remove port j (ports_of g jp proto).p,
  ==_iff tcp proto,
  ==_iff proto tcp,
)
release_host-contains (udp_addr ip port) g jp proto j = ground (
  arith,
  ports_of-release g ip jp udp proto port,
  contains-remove port j (ports_of g jp proto).p,
  ==_iff udp proto,
  ==_iff proto udp,
)
release_host-contains other g jp proto j = refl

abbrev pub is_ok : Result (Unit {0}) → Bool
is_ok (ok u) = true
is_ok (err e) = false

-- Whether there is a mapping whose rules can be deleted.
abbrev pub are_deleted : Host → Mapper → Option Mapping → Bool
are_deleted h s none = false
are_deleted h s (some m) = (forward_mapping h delete m s.runs).0

-- The mappings and the ports that `Unmap` leaves, for every key, address, protocol and port.
abbrev pub Unmapped : Host → Mapper → Addr → Mapper × Result (Unit {0}) → Type 0
Unmapped h s host (s', r) =
    ((k : Text)
      → lookup k s'.current_mappings
        ≡ (if get_key host == k then none else lookup k s.current_mappings))
    × ((jp : Option Text) (proto : Text) (j : ℕ)
        → contains j (ports_of s'.ports jp proto).p ≡ (
            not (is_ok r && is_port_of host jp proto j)
            && contains j (ports_of s.ports jp proto).p))
    × (is_ok r ≡ are_deleted h s (lookup (get_key host) s.current_mappings))

-- For every state and every behaviour of the host, after `Unmap` of an address the mapping under its
-- key is gone and all others are there; `Unmap` succeeds exactly where there was a mapping whose rules
-- could be deleted; where it succeeds, the one port that is no longer allocated is the address's, under
-- tcp for a TCP address and under udp for a UDP one, and where it fails all ports stay allocated.
pub unmap_port-Unmapped :
    (h : Host) (s : Mapper) (host : Addr) → Unmapped h s host (unmap_port h s host)
unmap_port-Unmapped h s host = by_result (unmap_port h s host) (unmap_port-Unmapping h s host)
  where
    erased :
        (s' : Mapper)
        → s'.current_mappings ≡ erase (get_key host) s.current_mappings
        → (k : Text)
        → lookup k s'.current_mappings
          ≡ (if get_key host == k then none else lookup k s.current_mappings)
    erased s' e k = ap (lookup k) e ∙ lookup-erase (get_key host) k s.current_mappings

    by_result : (r : Mapper × Result (Unit {0})) → Unmapping h s host r → Unmapped h s host r
    by_result (s', ok u) (m, e, done, maps, ports) = (
      erased s' maps,
      λ jp proto j.
          ap (λ (g : IpMapping). contains j (ports_of g jp proto).p) ports
          ∙ release_host-contains host s.ports jp proto j,
      sym (ap (are_deleted h s) e ∙ done),
    )
    by_result (s', err port_not_mapped) (e, same) = (
      λ k.
          ap (λ (t : Mapper). lookup k t.current_mappings) same
          ∙ ground (arith, e, ==_iff (get_key host) k),
      λ jp proto j. ap (λ (t : Mapper). contains j (ports_of t.ports jp proto).p) same,
      sym (ap (are_deleted h s) e),
    )
    by_result (s', err forward_failed) (m, e, failed, maps, ports) = (
      erased s' maps,
      λ jp proto j. ap (λ (g : IpMapping). contains j (ports_of g jp proto).p) ports,
      sym (ap (are_deleted h s) e ∙ failed),
    )
    by_result (s', err (port_error x)) v = absurd v
    by_result (s', err unknown_backend_address_type) v = absurd v
    by_result (s', err port_mapped_for_ip) v = absurd v
    by_result (s', err proxy_failed) v = absurd v

module _ (h : Host) (s : Mapper) (ip : Option Text) where
  not_released :
      (proto : Text) (q : ℕ) (r : Mapper × Result Addr) {s' : Mapper} {host : Addr}
      → release_on_error ip proto q r ≡ (s', ok host)
      → (s', ok host) ≡ r
  unfolding release_on_error
  not_released proto q (t, ok a) e = sym e
  not_released proto q (t, err x) e = cc

  granted_host :
      (proto : Text) (addr : Option Text → ℕ → Addr) (c : Addr)
      (r : Option (IpMapping × PortAllocator.Result ℕ)) {s' : Mapper} {host : Addr}
      → allocated h s proto addr c ip r ≡ some (s', ok host)
      → (q : ℕ) × (r ≡ some (s'.ports, PortAllocator.ok q)) × (host ≡ addr ip q)
  unfolding allocated
  granted_host proto addr c none e = cc
  granted_host proto addr c (some (g, PortAllocator.err x)) e = cc
  granted_host proto addr c (some (g, PortAllocator.ok q)) {s'} {host} e =
      let m = new_mapping proto addr c ip q in
      let r =
        not_released proto q (add_mapping h (record s { ports = g }) m) (some-injective _ _ e) in
      let a : Added (record s { ports = g }) m (s', ok host) =
        subst (Added (record s { ports = g }) m) (sym r)
          (add_mapping-Added h (record s { ports = g }) m) in
      (q, ap (λ (t : IpMapping). some (t, PortAllocator.ok q)) (sym a.1), a.0)

  -- The ports after the release of a granted host address.
  released_host :
      (proto : Text) (addr : Option Text → ℕ → Addr) (c : Addr) (port : ℤ) (fuel : ℕ) {s' : Mapper}
      {host : Addr}
      → ((q : ℕ) (g : IpMapping) → release_host (addr ip q) g ≡ release_port g ip proto q)
      → search_fuel ≤ fuel
      → is_known proto ≡ true
      → IsReady port (ports_of s.ports ip proto)
      → allocated h s proto addr c ip (request_port fuel s.ports ip proto port) ≡ some (s', ok host)
      → SamePorts s.ports (release_host host s'.ports)
  released_host proto addr c port fuel {s'} {host} release enough known ready e jp qroto j =
      let (q, granted, at) =
        granted_host proto addr c (request_port fuel s.ports ip proto port) e in
      rw (at, release)
        (release_port-request_port s.ports ip proto port fuel q s'.ports jp qroto j enough known
          ready granted)

  map_port-released :
      (fuel : ℕ) (c : Addr) (port : ℤ) {s' : Mapper} {host : Addr}
      → search_fuel ≤ fuel
      → IsReady port (ports_of s.ports ip (proto_of c))
      → map_port fuel h s c ip port ≡ some (s', ok host)
      → SamePorts s.ports (release_host host s'.ports)
  unfolding map_port release_host
  map_port-released fuel (tcp_addr cip cport) port enough ready e =
      released_host tcp tcp_addr (tcp_addr cip cport) port fuel (λ q g. refl) enough refl ready e
  map_port-released fuel (udp_addr cip cport) port enough ready e =
      released_host udp udp_addr (udp_addr cip cport) port fuel (λ q g. refl) enough refl ready e
  map_port-released fuel other port enough ready e = cc

  -- Only where `Map` is asked for a given port, or the last search for the address and the protocol
  -- left off in the range but above its first port, and with `search_fuel` rounds or more: `Unmap` of
  -- the host address that `Map` returned, where both succeed, gives the mappings and the allocated
  -- ports from before the `Map`.
  pub unmap_port-map_port :
      (fuel : ℕ) (c : Addr) (port : ℤ) (s' s'' : Mapper) (host : Addr) (k : Text)
      → search_fuel ≤ fuel
      → IsReady port (ports_of s.ports ip (proto_of c))
      → map_port fuel h s c ip port ≡ some (s', ok host)
      → unmap_port h s' host ≡ (s'', ok tt)
      → (lookup k s''.current_mappings ≡ lookup k s.current_mappings) × SamePorts s.ports s''.ports
  unmap_port-map_port fuel c port s' s'' host k enough ready e u =
      let mapped : Mapped s c (some (s', ok host)) = rw e at (map_port-Mapped h s ip fuel c port) in
      let unmapped : Unmapping h s' host (s'', ok tt) = rw u at (unmap_port-Unmapping h s' host) in
      (
        ground (
          arith,
          ap (lookup k) unmapped.3,
          ap (lookup k) mapped.4,
          ap (λ (t : _). lookup k (erase (get_key host) t)) mapped.4,
          lookup-erase (get_key host) k (insert (get_key host) mapped.0 s.current_mappings),
          lookup-insert (get_key host) k mapped.0 s.current_mappings,
          mapped.3,
          ==_iff (get_key host) k,
        ),
        rw unmapped.4 (map_port-released fuel c port enough ready e),
      )
