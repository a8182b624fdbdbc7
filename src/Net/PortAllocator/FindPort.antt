-- ===== src/Net/PortAllocator/FindPort.antt =====
-- The search of `findPort` for a free port of the dynamic range.
use docker.Common.{
  ℕ, zero, suc, ◌+◌, ◌-◌, ◌≤◌, ◌<◌, ◌≡◌, ◌≢◌, ◌⊎◌, ◌∙◌, refl, true, false, inl, inr, Option, none,
  some, List, arith, Bool-cases, ltb, ap, if◌then◌else◌, nat_beq, nat_eq,
}
use native.Mathlib.Decide.{ℕ_discrete, dec_lt}
use docker.Common.Maps.{contains, add}
use docker.Net.PortAllocator.{
  PortMap, Result, taken, ok, err, all_ports_allocated, port_already_allocated, unknown_protocol,
  begin_port_range, end_port_range, search_fuel, scan_ports, find_port,
}

abbrev pub InRange : ℕ → Type 0
InRange q = (begin_port_range ≤ q) × (q ≤ end_port_range)

-- A search over the ports of `In` has ended: with a free one of them, or because none is free.
abbrev Searched : List ℕ → (ℕ → Type 0) → Option (Result ℕ) → Type 0
Searched p In none = ⊥
Searched p In (some (ok q)) = In q × (contains q p ≡ false)
Searched p In (some (err all_ports_allocated)) = (q : ℕ) → In q → contains q p ≡ true
Searched p In (some (err unknown_protocol)) = ⊥
Searched p In (some (err (port_already_allocated ip q))) = ⊥

-- A search of fewer ports counts, where the ones left out are busy.
Searched-extend :
    (p : List ℕ) (In In' : ℕ → Type 0) (r : Option (Result ℕ))
    → ((q : ℕ) → In q → In' q)
    → ((q : ℕ) → In' q → contains q p ≡ false → In q)
    → Searched p In r
    → Searched p In' r
Searched-extend p In In' none sub busy h = h
Searched-extend p In In' (some (ok q)) sub busy h = (sub q h.0, h.1)
Searched-extend p In In' (some (err all_ports_allocated)) sub busy h =
    λ q i. elim (Bool-cases (contains q p)) [ inl e ↦ e | inr e ↦ h q (busy q i e) ]
Searched-extend p In In' (some (err unknown_protocol)) sub busy h = h
Searched-extend p In In' (some (err (port_already_allocated ip q))) sub busy h = h

-- A busy port before the ports searched changes nothing.
Searched-busy :
    (p : List ℕ) (In In' : ℕ → Type 0) (r : Option (Result ℕ)) (port : ℕ)
    → contains port p ≡ true
    → ((q : ℕ) → In q → In' q)
    → ((q : ℕ) → In' q → q ≢ port → In q)
    → Searched p In r
    → Searched p In' r
Searched-busy p In In' r port busy sub back = Searched-extend p In In' r sub λ q i free.
    elim (ℕ_discrete q port) [ yes e ↦ cc (ap (λ (t : ℕ). contains t p) e) | no n ↦ back q i n ]

module _ (last : ℕ) (p : List ℕ) where
  -- The three ways of a round: the end, a free port, a busy port.
  scan_end :
      (fuel port : ℕ)
      → port ≡ last
      → scan_ports (suc fuel) last p port ≡ some (err all_ports_allocated)
  unfolding scan_ports
  scan_end fuel port e = ground arith

  scan_free :
      (fuel port q : ℕ)
      → port ≢ last
      → (if ltb end_port_range port then begin_port_range else port) ≡ q
      → contains q p ≡ false
      → scan_ports (suc fuel) last p port ≡ some (ok q)
  unfolding scan_ports
  scan_free fuel port q n e free = ground arith

  scan_busy :
      (fuel port q : ℕ)
      → port ≢ last
      → (if ltb end_port_range port then begin_port_range else port) ≡ q
      → contains q p ≡ true
      → scan_ports (suc fuel) last p port ≡ scan_ports fuel last p (q + 1)
  unfolding scan_ports
  scan_busy fuel port q n e busy = ground arith

  -- Below `last` the search goes straight up to it.
  scan_low :
      (fuel port : ℕ)
      → port ≤ last
      → last ≤ end_port_range
      → last < fuel + port
      → Searched p (λ q. (port ≤ q) × (q < last)) (scan_ports fuel last p port)
  scan_low zero port a b c = absurd (omega arith)
  scan_low (suc fuel) port a b c = elim (ℕ_discrete port last) [
    | yes e ↦ rw (scan_end fuel port e) (λ q i. absurd (omega arith))
    | no n ↦ elim (Bool-cases (contains port p)) [
      | inl busy ↦ rw (scan_busy fuel port port n (ground arith) busy) (
          Searched-busy p _ _ _ port busy (λ q i. omega arith) (λ q i m. omega arith)
            (scan_low fuel (port + 1) (omega arith) b (omega arith)))
      | inr free ↦
          rw (scan_free fuel port port n (ground arith) free) ((omega arith, omega arith), free)
    ]
  ]

  -- Above `last` it goes up to the end of the range, and on from the beginning.
  scan_high :
      (fuel port : ℕ)
      → last < port
      → port ≤ end_port_range + 1
      → begin_port_range < last
      → last ≤ end_port_range
      → (end_port_range + 1 - port) + (last - begin_port_range) < fuel
      → Searched p
          (λ q. ((port ≤ q) × (q ≤ end_port_range)) ⊎ ((begin_port_range ≤ q) × (q < last)))
          (scan_ports fuel last p port)
  scan_high zero port a b c d h = absurd (omega arith)
  scan_high (suc fuel) port a b c d h = elim (dec_lt end_port_range port) [
    | yes over ↦ elim (Bool-cases (contains begin_port_range p)) [
      | inl busy ↦ rw (scan_busy fuel port begin_port_range (omega arith) (ground arith) busy) (
          Searched-busy p _ _ _ begin_port_range busy (λ q i. inr (omega arith))
            (λ q i m. omega arith)
            (scan_low fuel (begin_port_range + 1) (omega arith) d (omega arith)))
      | inr free ↦
          rw (scan_free fuel port begin_port_range (omega arith) (ground arith) free)
            (inr (omega arith, c), free)
    ]
    | no within ↦ elim (Bool-cases (contains port p)) [
      | inl busy ↦ rw (scan_busy fuel port port (omega arith) (ground arith) busy) (
          Searched-busy p _ _ _ port busy (λ q i. omega arith) (λ q i m. omega arith)
            (scan_high fuel (port + 1) (omega arith) (omega arith) c d (omega arith)))
      | inr free ↦
          rw (scan_free fuel port port (omega arith) (ground arith) free)
            (inl (omega arith, omega arith), free)
    ]
  ]

  -- Up to a free port above `last`, the search does not wrap.
  scan_up :
      (fuel port free : ℕ)
      → last < port
      → port ≤ free
      → free ≤ end_port_range
      → contains free p ≡ false
      → free < fuel + port
      → (q : ℕ) × (scan_ports fuel last p port ≡ some (ok q))
        × (port ≤ q)
        × (q ≤ free)
        × (contains q p ≡ false)
  scan_up zero port free a b c f h = absurd (omega arith)
  scan_up (suc fuel) port free a b c f h = elim (Bool-cases (contains port p)) [
    | inl busy ↦
        let n : port ≢ free = λ e. cc (ap (λ (t : ℕ). contains t p) e) in
        let (q, e, lo, hi, g) =
          scan_up fuel (port + 1) free (omega arith) (omega arith) c f (omega arith) in
        (q, scan_busy fuel port port (omega arith) (ground arith) busy ∙ e, omega arith, hi, g)
    | inr g ↦ (port, scan_free fuel port port (omega arith) (ground arith) g, omega arith, b, g)
  ]

  -- From the first port of the range the search wraps past `last`, and never ends.
  scan_never :
      last ≡ begin_port_range
      → ((q : ℕ) → InRange q → contains q p ≡ true)
      → (fuel port : ℕ) → last < port
      → port ≤ end_port_range + 1
      → scan_ports fuel last p port ≡ none
  scan_never e all zero port a b = unfold scan_ports in refl
  scan_never e all (suc fuel) port a b = elim (dec_lt end_port_range port) [
    | yes over ↦
        scan_busy fuel port begin_port_range (omega arith) (ground arith) (all _ (omega arith))
        ∙ scan_never e all fuel (begin_port_range + 1) (omega arith) (omega arith)
    | no within ↦
        scan_busy fuel port port (omega arith) (ground arith) (all _ (omega arith))
        ∙ scan_never e all fuel (port + 1) (omega arith) (omega arith)
  ]

-- What a search that ends leaves: a free port of the range other than `last`, now taken and `last`,
-- or no change where every other port of the range is busy.
abbrev pub Found : PortMap → Option (PortMap × Result ℕ) → Type 0
Found pm none = ⊥
Found pm (some (pm', ok q)) =
    InRange q
    × (q ≢ pm.last)
    × (contains q pm.p ≡ false)
    × (pm' ≡ record { p = add q pm.p; last = q })
Found pm (some (pm', err e)) =
    (e ≡ all_ports_allocated)
    × (pm' ≡ pm)
    × ((q : ℕ) → InRange q → q ≢ pm.last → contains q pm.p ≡ true)

Searched-Found :
    (pm : PortMap) (r : Option (Result ℕ))
    → begin_port_range < pm.last
    → pm.last ≤ end_port_range
    → Searched pm.p
        (λ q. ((pm.last + 1 ≤ q) × (q ≤ end_port_range)) ⊎ ((begin_port_range ≤ q) × (q < pm.last)))
        r
    → Found pm (taken pm r)
unfolding taken
Searched-Found pm none b c h = h
Searched-Found pm (some (ok q)) b c h = (omega arith, omega arith, h.1, refl)
Searched-Found pm (some (err all_ports_allocated)) b c h = (refl, refl, λ q i n. h q (omega arith))
Searched-Found pm (some (err unknown_protocol)) b c h = absurd h
Searched-Found pm (some (err (port_already_allocated ip q))) b c h = absurd h

last_eq : (pm : PortMap) → 0 < pm.last → nat_beq pm.last 0 ≡ false
last_eq pm h = ground arith

-- With `last` above the first port of the range, `findPort` ends within `search_fuel` rounds.
-- Where it succeeds, the port lies in the range, was free and is not `last`; it is now taken and
-- is the new `last`. Where it fails, nothing changes and every port of the range but `last` is busy.
pub find_port-Found :
    (pm : PortMap) (fuel : ℕ)
    → search_fuel ≤ fuel
    → begin_port_range < pm.last
    → pm.last ≤ end_port_range
    → Found pm (find_port fuel pm)
unfolding find_port
find_port-Found pm fuel enough b e = rw (last_eq pm (omega arith)) (
    Searched-Found pm _ b e
      (scan_high pm.last pm.p fuel (pm.last + 1) (omega arith) (omega arith) b e (omega arith)))

-- With `last` at the first port of the range and every port of the range busy, `findPort` never
-- ends: no number of rounds is enough.
pub find_port_diverges :
    (pm : PortMap)
    → pm.last ≡ begin_port_range
    → ((q : ℕ) → InRange q → contains q pm.p ≡ true)
    → (fuel : ℕ) → find_port fuel pm ≡ none
unfolding find_port
find_port_diverges pm e all fuel =
    rw (last_eq pm (omega arith))
      (ap (taken pm) (scan_never pm.last pm.p e all fuel (pm.last + 1) (omega arith) (omega arith)))

-- With `last` in the range and a free port above it, `findPort` ends within `search_fuel` rounds
-- with a port that was free and lies between `last` and that one, is now taken and is the new `last`.
find_port_up :
    (pm : PortMap) (fuel free : ℕ)
    → search_fuel ≤ fuel
    → begin_port_range ≤ pm.last
    → pm.last < free
    → free ≤ end_port_range
    → contains free pm.p ≡ false
    → (q : ℕ) × (find_port fuel pm ≡ some (record { p = add q pm.p; last = q }, ok q))
      × (pm.last < q)
      × (q ≤ free)
      × (contains q pm.p ≡ false)
unfolding find_port
find_port_up pm fuel free enough b lt le g =
    let (q, e, lo, hi, f) =
      scan_up pm.last pm.p fuel (pm.last + 1) free (omega arith) (omega arith) le g (omega arith) in
    (q, rw (last_eq pm (omega arith), e) refl, omega arith, hi, f)

-- The first search of a port map (`last` is 0) hands out the first port of the range without a look
-- at the ports in use: also where that port is already taken.
find_port_reissues :
    (pm : PortMap) (fuel : ℕ)
    → pm.last ≡ 0
    → contains begin_port_range pm.p ≡ true
    → find_port fuel pm ≡ some (record { p = pm.p; last = begin_port_range }, ok begin_port_range)
unfolding find_port add
find_port_reissues pm fuel e busy = ground arith
