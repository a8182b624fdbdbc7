-- ===== src/Net/Bridge/Retries.antt =====
-- The attempts of AllocatePort, and what a container's interface holds after the jobs.
use docker.Common.{
  ℕ, zero, suc, ◌≡◌, refl, ap, true, false, Option, some, inl, inr, Text, Option-cases, arith,
  text_eq, nat_eq,
}
use docker.Common.Int.{ℤ, pos, negsuc}
use docker.Net.PortAllocator
use docker.Net.PortMapper
use docker.Net.PortMapper.{Addr, Mapper, Host, map_port}
use docker.Net.PortMapper.Errors.{port_taken, map_port-port_taken}
use docker.Net.Bridge.{is_zero, after_map, try_map}

abbrev Mapped : Type 0
Mapped = Mapper × PortMapper.Result Addr

after_map_once :
    (host_port : ℤ) (again : Mapped → Option Mapped) (r : Mapped)
    → (port_taken (some r) ≡ true → is_zero host_port ≡ false)
    → after_map host_port again r ≡ some r
unfolding after_map
after_map_once host_port again (s, PortMapper.ok host) h = refl
after_map_once host_port again
      (s, PortMapper.err (PortMapper.port_error (PortAllocator.port_already_allocated ip p))) h =
    rw (h refl, after_map) refl
after_map_once host_port again
      (s, PortMapper.err (PortMapper.port_error PortAllocator.all_ports_allocated)) h =
    refl
after_map_once host_port again
      (s, PortMapper.err (PortMapper.port_error PortAllocator.unknown_protocol)) h =
    refl
after_map_once host_port again (s, PortMapper.err PortMapper.unknown_backend_address_type) h = refl
after_map_once host_port again (s, PortMapper.err PortMapper.port_mapped_for_ip) h = refl
after_map_once host_port again (s, PortMapper.err PortMapper.port_not_mapped) h = refl
after_map_once host_port again (s, PortMapper.err PortMapper.forward_failed) h = refl
after_map_once host_port again (s, PortMapper.err PortMapper.proxy_failed) h = refl

asked_for :
    (fuel : ℕ) (h : Host) (s : Mapper) (c : Addr) (ip : Option Text) (host_port : ℤ) (r : Mapped)
    → map_port fuel h s c ip host_port ≡ some r
    → port_taken (some r) ≡ true
    → is_zero host_port ≡ false
asked_for fuel h s c ip (pos zero) r e t =
    absurd (ground (arith, ap port_taken e, map_port-port_taken fuel h s c ip))
asked_for fuel h s c ip (pos (suc n)) r e t = ground arith
asked_for fuel h s c ip (negsuc n) r e t = refl

-- The loop of AllocatePort, with any number of attempts but none, is one call of Map: no error that
-- Map returns makes it go round again.
pub try_map-map_port :
    (fuel : ℕ) (h : Host) (c : Addr) (ip : Option Text) (host_port : ℤ) (n : ℕ) (r : Mapped)
    → try_map fuel h c ip host_port (suc n) r ≡ map_port fuel h r.0 c ip host_port
unfolding try_map
try_map-map_port fuel h c ip host_port n r =
    elim (Option-cases (map_port fuel h r.0 c ip host_port)) [
      | inl e ↦ rw (e, try_map) refl
      | inr (m, e) ↦
          rw (e, try_map)
            (after_map_once host_port (try_map fuel h c ip host_port n) m
              (asked_for fuel h r.0 c ip host_port m e))
    ]
