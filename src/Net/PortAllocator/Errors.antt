-- ===== src/Net/PortAllocator/Errors.antt =====
-- Which errors a search for a port can end with.
use docker.Common.{
  ℕ, zero, suc, ◌≡◌, refl, ◌+◌, Bool, true, false, Option, none, some, inl, inr, List, Text,
  Bool-cases, ltb, ◌==◌, if◌then◌else◌, nat_eq, text_eq,
}
use docker.Common.Int.{pos}
use docker.Common.Maps.{contains}
use docker.Net.PortAllocator.{
  PortMap, IpMapping, Result, ok, err, port_already_allocated, all_ports_allocated,
  unknown_protocol, end_port_range, begin_port_range, scan_ports, take_port, taken, find_port,
  found, ports_of, any_port, request_valid, request_port, is_known,
}

-- Whether a result says that a port is taken.
abbrev pub says_taken {ℓ} : {A : Type ℓ} → Option (A × Result ℕ) → Bool
says_taken none = false
says_taken (some (a, ok q)) = false
says_taken (some (a, err (port_already_allocated ip q))) = true
says_taken (some (a, err all_ports_allocated)) = false
says_taken (some (a, err unknown_protocol)) = false

taken-says_taken :
    (pm : PortMap) (fuel last : ℕ) (p : List ℕ) (port : ℕ)
    → says_taken (taken pm (scan_ports fuel last p port)) ≡ false
unfolding taken take_port scan_ports
taken-says_taken pm zero last p port = refl
taken-says_taken pm (suc fuel) last p port = elim (Bool-cases (port == last)) [
  | inl back ↦ rw (back, scan_ports, taken) refl
  | inr n ↦
      let port' = if ltb end_port_range port then begin_port_range else port in
      elim (Bool-cases (contains port' p)) [
        | inl busy ↦ rw (n, busy, scan_ports, taken) (taken-says_taken pm fuel last p (port' + 1))
        | inr free ↦ rw (n, free, scan_ports, taken) refl
      ]
]

find_port-says_taken : (fuel : ℕ) (pm : PortMap) → says_taken (find_port fuel pm) ≡ false
unfolding find_port take_port
find_port-says_taken fuel pm = elim (Bool-cases (pm.last == 0)) [
  | inl first ↦ rw (first, find_port) refl
  | inr later ↦ rw (later, find_port) (taken-says_taken pm fuel pm.last pm.p (pm.last + 1))
]

found-says_taken :
    (g : IpMapping) (ip : Option Text) (proto : Text) (r : Option (PortMap × Result ℕ))
    → says_taken r ≡ false
    → says_taken (found g ip proto r) ≡ false
unfolding found
found-says_taken g ip proto none h = refl
found-says_taken g ip proto (some (pm, ok q)) h = refl
found-says_taken g ip proto (some (pm, err (port_already_allocated i q))) h = h
found-says_taken g ip proto (some (pm, err all_ports_allocated)) h = refl
found-says_taken g ip proto (some (pm, err unknown_protocol)) h = refl

-- A request for any port is never refused since a port is taken.
pub request_port-says_taken :
    (fuel : ℕ) (g : IpMapping) (ip : Option Text) (proto : Text)
    → says_taken (request_port fuel g ip proto (pos 0)) ≡ false
unfolding request_port request_valid any_port
request_port-says_taken fuel g ip proto = elim (Bool-cases (is_known proto)) [
  | inl known ↦
      rw (known, request_port)
        (found-says_taken g ip proto (find_port fuel (ports_of g ip proto))
          (find_port-says_taken fuel (ports_of g ip proto)))
  | inr unknown ↦ rw (unknown, request_port) refl
]
