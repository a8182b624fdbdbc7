-- ===== src/Net/IpAllocator.antt =====
-- daemon/networkdriver/ipallocator/allocator.go. The lock makes each function one step on the
-- allocated maps, which the functions here take and return. Positions are bit patterns of `int32`.
pub mod Search
pub mod Requests
mod Tests
use docker.Common.{
  ℕ, zero, suc, ◌+◌, ◌-◌, ◌/◌, ◌%◌, ◌≡◌, Bool, true, false, ◌||◌, Option, none, some, List, [], ◌∷◌,
  Text, ◌++◌, ◌==◌, ltb, nat_eq, text_eq, if◌then◌else◌,
}
use docker.Common.Words.{u32_mod, i32_sign, add32, sub32, rem32}
use docker.Common.Maps.{lookup, insert, contains, add, remove}
use docker.Net.Ipv4.{Ip, IpNet, Mask, bytes, mask_ip, network_range, network_size, uint32}

pub record AllocatedMap : Type 0 where
  pub p : List ℕ
  pub last : ℕ

abbrev pub new_allocated_map : AllocatedMap
new_allocated_map = record { p = []; last = 0 }

abbrev pub NetworkSet : Type 0
NetworkSet = List (Text × AllocatedMap)

pub data Error : Type 0 where
  no_available_ips ip_already_allocated : Error

pub data Result : Type 0 where
  ok : Ip → Result
  err : Error → Result

-- The key of a network. `network.String()` is one-to-one on the pairs of an IPv4 address and a
-- mask, and so are these bytes.
pub key_of : IpNet → Text
key_of n = bytes n.ip ++ bytes n.mask

abbrev pub ip_to_int : Ip → ℕ
ip_to_int a = uint32 a

pub int_to_ip : ℕ → Ip
int_to_ip n = record {
  b0 = n / 16777216 % 256;
  b1 = n / 65536 % 256;
  b2 = n / 256 % 256;
  b3 = n % 256;
}

unfoldable pub get_position : IpNet → Ip → ℕ
unfolding network_range
get_position n a = sub32 (ip_to_int a) (ip_to_int (network_range n).0)

pub check_ip : AllocatedMap → IpNet → Ip → AllocatedMap × Result
check_ip m n a =
    let at = get_position n a in
    if contains at m.p
    then (m, err ip_already_allocated)
    else (record { p = add at m.p; last = at }, ok a)

-- `size - 2`, taken to `int32`.
abbrev pub max_of : IpNet → ℕ
max_of n = sub32 (network_size n.mask) 2

-- The number of rounds of `for i := int32(0); i < max; i++`.
abbrev pub rounds_of : ℕ → ℕ
rounds_of max = if ltb max i32_sign then max else 0

-- What the loop leaves out: the network's own address and the first address of the subnet.
abbrev pub is_reserved : ℕ → ℕ → ℕ → Bool
is_reserved own first_as_int next = next == own || next == first_as_int

-- The loop: the position that it takes.
unfoldable pub scan_positions : ℕ → ℕ → (ℕ → Bool) → List ℕ → ℕ → Option ℕ
scan_positions zero max reserved p at = none
scan_positions (suc i) max reserved p at =
    let at' = add32 (rem32 at max) 1 in
    let rest = scan_positions i max reserved p at' in
    if reserved at' then rest else if contains at' p then rest else some at'

abbrev pub reserved_at : IpNet → ℕ → Bool
reserved_at n at =
    is_reserved (ip_to_int n.ip) (add32 (ip_to_int (mask_ip n.ip n.mask)) 1)
      (add32 (ip_to_int (network_range n).0) at)

taken : AllocatedMap → IpNet → Option ℕ → AllocatedMap × Result
unfolding int_to_ip
taken m n none = (m, err no_available_ips)
taken m n (some at) = (
  record { p = add at m.p; last = at },
  ok (int_to_ip (add32 (ip_to_int (network_range n).0) at)),
)

pub get_next_ip : AllocatedMap → IpNet → AllocatedMap × Result
unfolding taken
get_next_ip m n =
    taken m n (scan_positions (rounds_of (max_of n)) (max_of n) (reserved_at n) m.p m.last)

-- `allocated, ok := allocatedIPs[key]`, with a new map where there is none.
pub allocated_of : NetworkSet → IpNet → AllocatedMap
allocated_of s n = elim (lookup (key_of n) s) [ none ↦ new_allocated_map | some m ↦ m ]

-- The write through the pointer to the map, with the result.
abbrev stored : NetworkSet → IpNet → AllocatedMap × Result → NetworkSet × Result
stored s n (m, r) = (insert (key_of n) m s, r)

unfoldable pub request_ip : NetworkSet → IpNet → Option Ip → NetworkSet × Result
unfolding allocated_of get_next_ip check_ip
request_ip s n none = stored s n (get_next_ip (allocated_of s n) n)
request_ip s n (some a) = stored s n (check_ip (allocated_of s n) n a)

unfoldable pub release_ip : NetworkSet → IpNet → Ip → NetworkSet
unfolding get_position
release_ip s n a = elim (lookup (key_of n) s) [
  | none ↦ s
  | some m ↦ insert (key_of n) (record m { p = remove (get_position n a) m.p }) s
]
