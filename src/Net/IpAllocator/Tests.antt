-- ===== src/Net/IpAllocator/Tests.antt =====
-- Runs of the address allocator, and its theorems at concrete inputs.
use docker.Common.{ℕ, ◌≡◌, ◌≢◌, refl, false, ◌||◌, none, [], ◌∷◌, arith, ◌==◌, nat_eq, text_eq}
use docker.Common.Maps.{contains, lookup, add}
use docker.Net.Ipv4.{Ip, IpNet, network_range, network_size, mask_ip}
use docker.Net.IpAllocator.{
  AllocatedMap, NetworkSet, ok, key_of, get_position, allocated_of, request_ip, scan_positions,
  get_next_ip,
}
use docker.Net.IpAllocator.Requests.{Got, get_next_ip-Got, request_ip_fresh}

abbrev lan : IpNet
lan = record {
  ip = record { b0 = 192; b1 = 168; b2 = 0; b3 = 1 };
  mask = record { b0 = 255; b1 = 255; b2 = 255; b3 = 248 };
}

abbrev host : ℕ → Ip
host n = record { b0 = 192; b1 = 168; b2 = 0; b3 = n }

abbrev taken_two : AllocatedMap
taken_two = record { p = 2 ∷ 3 ∷ []; last = 3 }

abbrev taken_all : AllocatedMap
taken_all = record { p = 2 ∷ 3 ∷ 4 ∷ 5 ∷ 6 ∷ []; last = 6 }

abbrev lan_set : NetworkSet
lan_set = (key_of lan, taken_two) ∷ []

abbrev full_set : NetworkSet
full_set = (key_of lan, taken_all) ∷ []

get_next_ip_test :
    get_next_ip taken_two lan ≡ (record { p = 4 ∷ 2 ∷ 3 ∷ []; last = 4 }, ok (host 4))
unfolding get_next_ip scan_positions contains add network_range network_size mask_ip
get_next_ip_test = refl

get_next_ip-Got_example : Got lan taken_two (get_next_ip taken_two lan)
unfolding network_size
get_next_ip-Got_example = get_next_ip-Got lan taken_two (omega arith) (omega arith)

request_ip_fresh_example :
    (host 4 ≢ host 1)
    × (contains (get_position lan (host 4)) (allocated_of lan_set lan).p ≡ false)
    × (contains 4 (allocated_of (request_ip lan_set lan none).0 lan).p
        ≡ (get_position lan (host 4) == 4 || contains 4 (allocated_of lan_set lan).p))
unfolding request_ip key_of lookup scan_positions contains add network_range network_size mask_ip
request_ip_fresh_example =
    request_ip_fresh lan_set lan 4 (omega arith) (omega arith) (omega arith) refl
