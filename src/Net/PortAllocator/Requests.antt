-- ===== src/Net/PortAllocator/Requests.antt =====
-- RequestPort and ReleasePort on the global map: what changes under the address and protocol that
-- they are called with, and that nothing else does.
use docker.Common.{
  ℕ, zero, suc, ◌≤◌, ◌<◌, ◌≡◌, ◌∙◌, inl, inr, refl, ap, true, false, ◌&&◌, ◌||◌, Option, none, some,
  arith, Bool-cases, Option-cases, ◌==◌, ==_iff, ==_refl, nat_eq, text_eq, Text, if◌then◌else◌,
}
use docker.Common.Int.{ℤ, pos, negsuc}
use docker.Common.Maps.{
  contains, add, remove, lookup, insert, lookup-insert, contains-add, contains-remove,
}
use docker.Net.PortAllocator.{
  PortMap, ProtoMap, IpMapping, Error, Result, ok, err, ip_string, is_known, new_port_map,
  new_proto_map, proto_map, port_map, ports_of, store_ports, found, explicit_port, request_valid,
  request_port, release_port, port_already_allocated, begin_port_range, end_port_range, search_fuel,
}
use docker.Net.PortAllocator.FindPort.{Found, find_port-Found}

proto_map-insert :
    (g : IpMapping) (a b : Text) (m : ProtoMap)
    → proto_map (insert a m g) b ≡ (if a == b then m else proto_map g b)
unfolding proto_map
proto_map-insert g a b m = ground (arith, lookup-insert a b m g)

port_map-insert :
    (m : ProtoMap) (a b : Text) (pm : PortMap)
    → port_map (insert a pm m) b ≡ (if a == b then pm else port_map m b)
unfolding port_map
port_map-insert m a b pm = ground (arith, lookup-insert a b pm m)

-- The ports of one address and protocol, after a write under another or the same.
pub ports_of-store :
    (g : IpMapping) (ip jp : Option Text) (proto qroto : Text) (pm : PortMap)
    → ports_of (store_ports g ip proto pm) jp qroto
      ≡ (if (ip_string ip == ip_string jp) && (proto == qroto) then pm else ports_of g jp qroto)
unfolding ports_of store_ports
ports_of-store g ip jp proto qroto pm = ground (
  arith,
  proto_map-insert g (ip_string ip) (ip_string jp) (insert proto pm (proto_map g (ip_string ip))),
  port_map-insert (proto_map g (ip_string ip)) proto qroto pm,
  ==_iff (ip_string ip) (ip_string jp),
)

port_map-new : (proto : Text) → port_map new_proto_map proto ≡ new_port_map
unfolding port_map lookup
port_map-new proto = ground arith

proto_map-some :
    (g : IpMapping) (ip : Text) {m : ProtoMap} → lookup ip g ≡ some m → proto_map g ip ≡ m
unfolding proto_map
proto_map-some g ip e = rw (e, proto_map)

proto_map-none : (g : IpMapping) (ip : Text) → lookup ip g ≡ none → proto_map g ip ≡ new_proto_map
unfolding proto_map
proto_map-none g ip e = rw (e, proto_map)

abbrev without_port : ℕ → PortMap → PortMap
without_port port pm = record pm { p = remove port pm.p }

-- `ReleasePort` takes the port out of the set of its address and protocol, and changes no other.
pub ports_of-release :
    (g : IpMapping) (ip jp : Option Text) (proto qroto : Text) (port : ℕ)
    → ports_of (release_port g ip proto port) jp qroto ≡ (
        if (ip_string ip == ip_string jp) && (proto == qroto)
        then record { p = remove port (ports_of g jp qroto).p; last = (ports_of g jp qroto).last }
        else ports_of g jp qroto)
unfolding release_port ports_of remove
ports_of-release g ip jp proto qroto port = elim (Option-cases (lookup (ip_string ip) g)) [
  | inl e ↦ ground (
    arith,
    e,
    proto_map-none g (ip_string ip) e,
    port_map-new qroto,
    ==_iff (ip_string ip) (ip_string jp),
  )
  | inr (m, e) ↦ ground (
    arith,
    e,
    proto_map-some g (ip_string ip) e,
    proto_map-insert g (ip_string ip) (ip_string jp)
        (insert proto (without_port port (port_map m proto)) m),
    port_map-insert m proto qroto (without_port port (port_map m proto)),
    ==_iff (ip_string ip) (ip_string jp),
    ==_iff proto qroto,
  )
]

-- What the theorems on requests assume: a given port, or a last search that left off in the range but
-- above its first port. It leaves out a port map that was never searched and the one after its first
-- search.
abbrev pub IsReady : ℤ → PortMap → Type 0
IsReady (pos (suc port)) pm = Unit
IsReady (pos zero) pm = (begin_port_range < pm.last) × (pm.last ≤ end_port_range)
IsReady (negsuc n) pm = (begin_port_range < pm.last) × (pm.last ≤ end_port_range)

-- What a request does to the sets of ports: it ends; a port that it grants was free and is the one
-- port added to its set; a request that fails adds none.
abbrev pub Granted : PortMap → (IpMapping → PortMap) → Option (IpMapping × Result ℕ) → Type 0
Granted pm after none = ⊥
Granted pm after (some (g, ok q)) =
    (contains q pm.p ≡ false) × ((j : ℕ) → contains j (after g).p ≡ (q == j || contains j pm.p))
Granted pm after (some (g, err e)) = (j : ℕ) → contains j (after g).p ≡ contains j pm.p

-- A call under one address and protocol leaves the ports of all others.
abbrev pub Framed : IpMapping → Option Text → Text → Option (IpMapping × Result ℕ) → Type 0
Framed g ip proto none = Unit
Framed g ip proto (some (g', r)) =
    (jp : Option Text) (qroto : Text)
    → ((ip_string ip == ip_string jp) && (proto == qroto)) ≡ false
    → ports_of g' jp qroto ≡ ports_of g jp qroto

ports_of-store_self :
    (g : IpMapping) (ip : Option Text) (proto : Text) (pm : PortMap)
    → ports_of (store_ports g ip proto pm) ip proto ≡ pm
ports_of-store_self g ip proto pm =
    ports_of-store g ip ip proto proto pm ∙ ground (arith, ==_refl (ip_string ip), ==_refl proto)

ports_of_same :
    (g : IpMapping) (ip jp : Option Text) (proto qroto : Text)
    → ((ip_string ip == ip_string jp) && (proto == qroto)) ≡ true
    → ports_of g jp qroto ≡ ports_of g ip proto
unfolding ports_of
ports_of_same g ip jp proto qroto h =
    ground (arith, ==_iff (ip_string ip) (ip_string jp), ==_iff proto qroto)

module _ (g : IpMapping) (ip : Option Text) (proto : Text) where
  explicit_port_busy :
      (port : ℕ)
      → contains port (ports_of g ip proto).p ≡ true
      → explicit_port g ip proto port ≡ (
        store_ports g ip proto (ports_of g ip proto),
        err (port_already_allocated (ip_string ip) port),
      )
  unfolding explicit_port
  explicit_port_busy port busy = ground arith

  explicit_port_free :
      (port : ℕ)
      → contains port (ports_of g ip proto).p ≡ false
      → explicit_port g ip proto port ≡ (
        store_ports g ip proto
            (record (ports_of g ip proto) { p = add port (ports_of g ip proto).p }),
        ok port,
      )
  unfolding explicit_port
  explicit_port_free port free = ground arith

  set_after :
      (pm pm' : PortMap)
      → pm ≡ pm'
      → (j : ℕ) → contains j (ports_of (store_ports g ip proto pm) ip proto).p ≡ contains j pm'.p
  set_after pm pm' e j =
      ap (λ (m : PortMap). contains j m.p) (ports_of-store_self g ip proto pm ∙ e)

  explicit_port-Granted :
      (port : ℕ)
      → Granted
          (ports_of g ip proto)
          (λ g'. ports_of g' ip proto)
          (some (explicit_port g ip proto port))
  explicit_port-Granted port = elim (Bool-cases (contains port (ports_of g ip proto).p)) [
    | inl busy ↦ rw (explicit_port_busy port busy) (set_after _ _ refl)
    | inr free ↦
        rw (explicit_port_free port free) (free, λ j. set_after _ _ refl j ∙ contains-add port j _)
  ]

  found-Granted :
      (r : Option (PortMap × Result ℕ))
      → Found (ports_of g ip proto) r
      → Granted (ports_of g ip proto) (λ g'. ports_of g' ip proto) (found g ip proto r)
  unfolding found
  found-Granted none h = h
  found-Granted (some (pm, ok q)) (i, n, free, e) =
      (free, λ j. set_after pm _ e j ∙ contains-add q j _)
  found-Granted (some (pm, err x)) (a, e, h) = set_after pm _ e

  request_valid-Granted :
      (port : ℤ) (fuel : ℕ)
      → search_fuel ≤ fuel
      → IsReady port (ports_of g ip proto)
      → Granted
          (ports_of g ip proto)
          (λ g'. ports_of g' ip proto)
          (request_valid fuel g ip proto port)
  unfolding request_valid
  request_valid-Granted (pos (suc port)) fuel enough r = explicit_port-Granted (suc port)
  request_valid-Granted (pos zero) fuel enough r =
      found-Granted _ (find_port-Found _ fuel enough r.0 r.1)
  request_valid-Granted (negsuc n) fuel enough r =
      found-Granted _ (find_port-Found _ fuel enough r.0 r.1)

  -- Only for a known protocol, with `search_fuel` rounds or more, and where the request names a given
  -- port or the last search for the address and protocol left off in the range but above its first
  -- port: the request ends; a port that it grants was free and is the one port added to the set of its
  -- address and protocol; and a request that fails leaves the set.
  pub request_port-Granted :
      (port : ℤ) (fuel : ℕ)
      → search_fuel ≤ fuel
      → is_known proto ≡ true
      → IsReady port (ports_of g ip proto)
      → Granted
          (ports_of g ip proto)
          (λ g'. ports_of g' ip proto)
          (request_port fuel g ip proto port)
  unfolding request_port
  request_port-Granted port fuel enough known r =
      rw known (request_valid-Granted port fuel enough r)

  stored-Framed :
      (pm : PortMap) (r : Result ℕ) → Framed g ip proto (some (store_ports g ip proto pm, r))
  stored-Framed pm r jp qroto other = ports_of-store g ip jp proto qroto pm ∙ ground arith

  found-Framed : (r : Option (PortMap × Result ℕ)) → Framed g ip proto (found g ip proto r)
  unfolding found
  found-Framed none = tt
  found-Framed (some (pm, r)) = stored-Framed pm r

  explicit_port-Framed : (port : ℕ) → Framed g ip proto (some (explicit_port g ip proto port))
  explicit_port-Framed port = elim (Bool-cases (contains port (ports_of g ip proto).p)) [
    | inl busy ↦
        rw (explicit_port_busy port busy)
          (stored-Framed _ (err (port_already_allocated (ip_string ip) port)))
    | inr free ↦ rw (explicit_port_free port free) (stored-Framed _ (ok port))
  ]

  request_valid-Framed :
      (fuel : ℕ) (port : ℤ) → Framed g ip proto (request_valid fuel g ip proto port)
  unfolding request_valid
  request_valid-Framed fuel (pos (suc port)) = explicit_port-Framed (suc port)
  request_valid-Framed fuel (pos zero) = found-Framed _
  request_valid-Framed fuel (negsuc n) = found-Framed _

  -- Whatever a request returns, the ports of every other address and protocol are as they were.
  request_port-Framed :
      (fuel : ℕ) (port : ℤ) → Framed g ip proto (request_port fuel g ip proto port)
  unfolding request_port
  request_port-Framed fuel port = elim (Bool-cases (is_known proto)) [
    | inl known ↦ rw known (request_valid-Framed fuel port)
    | inr unknown ↦ rw unknown (λ jp qroto other. refl)
  ]

  -- Only for a known protocol, with `search_fuel` rounds or more, and where the request names a given
  -- port or the last search for the address and protocol left off in the range but above its first
  -- port: a request that is granted and then released leaves every set of ports as it was, that of
  -- its own address and protocol and those of all others.
  pub release_port-request_port :
      (port : ℤ) (fuel q : ℕ) (g' : IpMapping) (jp : Option Text) (qroto : Text) (j : ℕ)
      → search_fuel ≤ fuel
      → is_known proto ≡ true
      → IsReady port (ports_of g ip proto)
      → request_port fuel g ip proto port ≡ some (g', ok q)
      → contains j (ports_of (release_port g' ip proto q) jp qroto).p
        ≡ contains j (ports_of g jp qroto).p
  release_port-request_port port fuel q g' jp qroto j enough known r e =
      let granted : Granted (ports_of g ip proto) (λ h. ports_of h ip proto) (some (g', ok q)) =
        rw e at (request_port-Granted port fuel enough known r) in
      let framed : Framed g ip proto (some (g', ok q)) = rw e at (request_port-Framed fuel port) in
      elim (Bool-cases ((ip_string ip == ip_string jp) && (proto == qroto))) [
        | inl same ↦ ground (
          arith,
          ports_of-release g' ip jp proto qroto q,
          ports_of_same g ip jp proto qroto same,
          ports_of_same g' ip jp proto qroto same,
          granted.0,
          granted.1 j,
          contains-remove q j (ports_of g' ip proto).p,
          ==_iff q j,
        )
        | inr apart ↦ ground (arith, ports_of-release g' ip jp proto qroto q, framed jp qroto apart)
      ]

  -- A request that fails leaves every set of ports.
  pub request_port_failed :
      (port : ℤ) (fuel : ℕ) (g' : IpMapping) (x : Error) (jp : Option Text) (qroto : Text) (j : ℕ)
      → search_fuel ≤ fuel
      → is_known proto ≡ true
      → IsReady port (ports_of g ip proto)
      → request_port fuel g ip proto port ≡ some (g', err x)
      → contains j (ports_of g' jp qroto).p ≡ contains j (ports_of g jp qroto).p
  request_port_failed port fuel g' x jp qroto j enough known r e =
      let granted : Granted (ports_of g ip proto) (λ h. ports_of h ip proto) (some (g', err x)) =
        rw e at (request_port-Granted port fuel enough known r) in
      let framed : Framed g ip proto (some (g', err x)) = rw e at (request_port-Framed fuel port) in
      elim (Bool-cases ((ip_string ip == ip_string jp) && (proto == qroto))) [
        | inl same ↦ ground (
          arith,
          ports_of_same g ip jp proto qroto same,
          ports_of_same g' ip jp proto qroto same,
          granted j,
        )
        | inr apart ↦ ground (arith, framed jp qroto apart)
      ]
