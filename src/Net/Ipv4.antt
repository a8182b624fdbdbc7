-- ===== src/Net/Ipv4.antt =====
-- daemon/networkdriver/utils.go: IPv4 networks as four bytes of address and four of mask.
mod Tests
use Prim.Native.Nat.{bit_and, bit_or}
use docker.Common.{
  ℕ, ◌+◌, ◌-◌, ◌*◌, ◌/◌, ◌%◌, ◌≤◌, ◌<◌, ◌≡◌, List, [], ◌∷◌, Text, Bool, true, false, ◌&&◌, ◌||◌,
  if◌then◌else◌, ◌==◌, text_eq,
}
use docker.Common.Words.{u32_mod, add32}

-- An IPv4 address, most significant byte first (`ip.To4()`).
pub record Ip : Type 0 where
  pub b0 : ℕ
  pub b1 : ℕ
  pub b2 : ℕ
  pub b3 : ℕ

-- `net.IPMask` of four bytes.
abbrev pub Mask : Type 0
Mask = Ip

pub record IpNet : Type 0 where
  pub ip : Ip
  pub mask : Mask

abbrev pub bytes : Ip → Text
bytes a = a.b0 ∷ a.b1 ∷ a.b2 ∷ a.b3 ∷ []

-- `ip.Mask(mask)`
unfoldable pub mask_ip : Ip → Mask → Ip
mask_ip a m = record {
  b0 = bit_and a.b0 m.b0;
  b1 = bit_and a.b1 m.b1;
  b2 = bit_and a.b2 m.b2;
  b3 = bit_and a.b3 m.b3;
}

-- `^b` on a byte.
abbrev complement : ℕ → ℕ
complement b = 255 - b

first_ip : IpNet → Ip
unfolding mask_ip
first_ip n = mask_ip n.ip n.mask

last_ip : IpNet → Ip
last_ip n = record {
  b0 = bit_or n.ip.b0 (complement n.mask.b0);
  b1 = bit_or n.ip.b1 (complement n.mask.b1);
  b2 = bit_or n.ip.b2 (complement n.mask.b2);
  b3 = bit_or n.ip.b3 (complement n.mask.b3);
}

unfoldable pub network_range : IpNet → Ip × Ip
unfolding first_ip last_ip
network_range n = (first_ip n, last_ip n)

-- `binary.BigEndian.Uint32`
abbrev pub uint32 : Ip → ℕ
uint32 a = ((a.b0 * 256 + a.b1) * 256 + a.b2) * 256 + a.b3

unfoldable pub network_size : Mask → ℕ
network_size m =
    add32
      (uint32 (record {
        b0 = complement m.b0;
        b1 = complement m.b1;
        b2 = complement m.b2;
        b3 = complement m.b3;
      }))
      1

-- `network.Contains(ip)`
pub net_contains : IpNet → Ip → Bool
unfolding mask_ip
net_contains n a = bytes (mask_ip n.ip n.mask) == bytes (mask_ip a n.mask)

pub network_overlaps : IpNet → IpNet → Bool
network_overlaps x y =
    if net_contains y (network_range x).0
    then true
    else if net_contains x (network_range y).0
    then true
    else false

pub record IsIp (a : Ip) : Type 0 where
  pub lt0 : a.b0 < 256
  pub lt1 : a.b1 < 256
  pub lt2 : a.b2 < 256
  pub lt3 : a.b3 < 256
