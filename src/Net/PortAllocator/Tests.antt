-- ===== src/Net/PortAllocator/Tests.antt =====
-- Runs of the port allocator, and its theorems at concrete inputs.
use docker.Common.{
  ℕ, zero, suc, ◌+◌, ◌≤◌, ◌<◌, ◌≡◌, refl, true, none, some, List, [], ◌∷◌, codes, arith, nat_eq,
  text_eq,
}
use docker.Common.Int.{pos, negsuc}
use docker.Common.Maps.{contains, lookup, insert, add}
use docker.Net.PortAllocator.{
  PortMap, IpMapping, ok, tcp, udp, begin_port_range, find_port, scan_ports, request_port,
  release_port, ports_of, store_ports,
}
use docker.Net.PortAllocator.FindPort.{Found, find_port-Found, find_port_diverges}
use docker.Net.PortAllocator.Requests.{Granted, request_port-Granted, release_port-request_port}

abbrev two_taken : PortMap
two_taken = record { p = 49153 ∷ 49154 ∷ []; last = 49154 }

abbrev one_taken : PortMap
one_taken = record { p = 49153 ∷ 49155 ∷ []; last = 49153 }

abbrev explicit_first : PortMap
explicit_first = record { p = 49153 ∷ []; last = 0 }

abbrev busy_host : IpMapping
busy_host = (codes "10.0.0.1", (tcp, two_taken) ∷ (udp, explicit_first) ∷ []) ∷ []

-- The next port after `last` is taken; a wrapped search takes the first port of the range.
next_port :
    find_port 16384 two_taken
    ≡ some (record { p = 49155 ∷ 49153 ∷ 49154 ∷ []; last = 49155 }, ok 49155)
unfolding find_port scan_ports contains add
next_port = refl

wrapped_port :
    find_port 16384 (record { p = 65535 ∷ []; last = 65535 })
    ≡ some (record { p = 49153 ∷ 65535 ∷ []; last = 49153 }, ok 49153)
unfolding find_port scan_ports contains add
wrapped_port = refl

find_port-Found_example : Found two_taken (find_port 16384 two_taken)
find_port-Found_example = find_port-Found two_taken 16384 (omega arith) (omega arith) (omega arith)

-- The ports from `first` on, `n` of them.
ports_from : ℕ → ℕ → List ℕ
ports_from zero first = []
ports_from (suc n) first = first ∷ ports_from n (first + 1)

contains-ports_from :
    (n first q : ℕ) → first ≤ q → q < first + n → contains q (ports_from n first) ≡ true
unfolding ports_from contains
contains-ports_from zero first q a b = absurd (omega arith)
contains-ports_from (suc n) first q a b = ground (arith, contains-ports_from n (first + 1) q)

abbrev full_range : PortMap
full_range = record { p = ports_from 16383 begin_port_range; last = begin_port_range }

find_port_diverges_example : find_port 100000 full_range ≡ none
find_port_diverges_example =
    find_port_diverges full_range refl
      (λ q i. contains-ports_from 16383 begin_port_range q i.0 (omega arith)) 100000

request_port-Granted_example :
    Granted
      (ports_of busy_host (some (codes "10.0.0.1")) tcp)
      (λ g. ports_of g (some (codes "10.0.0.1")) tcp)
      (request_port 16384 busy_host (some (codes "10.0.0.1")) tcp (negsuc 0))
unfolding ports_of lookup
request_port-Granted_example =
    request_port-Granted busy_host (some (codes "10.0.0.1")) tcp (negsuc 0) 16384 (omega arith) refl
      (omega arith, omega arith)

release_port-request_port_example :
    contains 80
      (ports_of
        (release_port
          (insert
            (codes "0.0.0.0")
            ((tcp, record { p = 80 ∷ []; last = 0 }) ∷ (udp, record { p = []; last = 0 }) ∷ [])
            busy_host)
          none
          tcp
          80)
        none
        tcp).p
    ≡ contains 80 (ports_of busy_host none tcp).p
unfolding request_port insert lookup contains add ports_of store_ports
release_port-request_port_example =
    release_port-request_port busy_host none tcp (pos 80) 16384 80 _ none tcp 80 (omega arith) refl
      tt refl
