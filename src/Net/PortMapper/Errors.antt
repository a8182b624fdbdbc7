-- ===== src/Net/PortMapper/Errors.antt =====
-- Which errors Map can end with.
use docker.Common.{
  ℕ, ◌≡◌, refl, Bool, true, false, Option, none, some, inl, inr, Text, Bool-cases, Option-cases,
  text_eq,
}
use docker.Common.Int.{pos}
use docker.Common.Maps.{lookup}
use docker.Net.PortAllocator
use docker.Net.PortAllocator.{IpMapping, request_port, tcp, udp}
use docker.Net.PortAllocator.Errors.{says_taken, request_port-says_taken}
use docker.Net.Iptables.{add}
use docker.Net.PortMapper.{
  Addr, tcp_addr, udp_addr, other, Mapping, Mapper, Host, port_error, Result, ok, err, get_key,
  forward_mapping, new_mapping, start_mapping, add_mapping, release_on_error, allocated, map_port,
}

-- Whether Map's result says that the port is taken.
abbrev pub port_taken : Option (Mapper × Result Addr) → Bool
port_taken none = false
port_taken (some (s, ok host)) = false
port_taken (some (s, err (port_error (PortAllocator.port_already_allocated ip q)))) = true
port_taken (some (s, err e)) = false

add_mapping-port_taken :
    (h : Host) (s : Mapper) (m : Mapping) (ip : Option Text) (proto : Text) (port : ℕ)
    → port_taken (some (release_on_error ip proto port (add_mapping h s m))) ≡ false
unfolding add_mapping start_mapping release_on_error
add_mapping-port_taken h s m ip proto port =
    elim (Option-cases (lookup (get_key m.host) s.current_mappings)) [
      | inr (old, e) ↦ rw (e, add_mapping, release_on_error) refl
      | inl e ↦ elim (Bool-cases (forward_mapping h add m s.runs).0) [
        | inr failed ↦ rw (e, failed, add_mapping, release_on_error) refl
        | inl done ↦ elim (Bool-cases (h.starts m.userland_proxy)) [
          | inl started ↦ rw (e, done, started, add_mapping, start_mapping, release_on_error) refl
          | inr not' ↦ rw (e, done, not', add_mapping, start_mapping, release_on_error) refl
        ]
      ]
    ]

allocated-port_taken :
    (h : Host) (s : Mapper) (proto : Text) (addr : Option Text → ℕ → Addr) (c : Addr)
    (ip : Option Text) (r : Option (IpMapping × PortAllocator.Result ℕ))
    → says_taken r ≡ false
    → port_taken (allocated h s proto addr c ip r) ≡ false
unfolding allocated
allocated-port_taken h s proto addr c ip none e = refl
allocated-port_taken h s proto addr c ip (some (g, PortAllocator.ok port)) e =
    add_mapping-port_taken h (record s { ports = g }) (new_mapping proto addr c ip port) ip proto
      port
allocated-port_taken h s proto addr c ip
      (some (g, PortAllocator.err (PortAllocator.port_already_allocated i q))) e =
    e
allocated-port_taken h s proto addr c ip
      (some (g, PortAllocator.err PortAllocator.all_ports_allocated)) e =
    refl
allocated-port_taken h s proto addr c ip
      (some (g, PortAllocator.err PortAllocator.unknown_protocol)) e =
    refl

-- Map for any port never fails since the port is taken.
pub map_port-port_taken :
    (fuel : ℕ) (h : Host) (s : Mapper) (c : Addr) (ip : Option Text)
    → port_taken (map_port fuel h s c ip (pos 0)) ≡ false
unfolding map_port
map_port-port_taken fuel h s (tcp_addr i p) ip =
    allocated-port_taken h s tcp tcp_addr (tcp_addr i p) ip
      (request_port fuel s.ports ip tcp (pos 0)) (request_port-says_taken fuel s.ports ip tcp)
map_port-port_taken fuel h s (udp_addr i p) ip =
    allocated-port_taken h s udp udp_addr (udp_addr i p) ip
      (request_port fuel s.ports ip udp (pos 0)) (request_port-says_taken fuel s.ports ip udp)
map_port-port_taken fuel h s other ip = refl
