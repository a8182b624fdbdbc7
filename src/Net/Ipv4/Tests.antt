-- ===== src/Net/Ipv4/Tests.antt =====
-- Runs of the range, the size and the overlap of networks.
use docker.Common.{◌≡◌, refl}
use docker.Net.Ipv4.{IpNet, network_range, network_size}

abbrev docker0 : IpNet
docker0 = record {
  ip = record { b0 = 172; b1 = 17; b2 = 42; b3 = 1 };
  mask = record { b0 = 255; b1 = 255; b2 = 0; b3 = 0 };
}

docker0_range : network_range docker0 ≡ (
  record { b0 = 172; b1 = 17; b2 = 0; b3 = 0 },
  record { b0 = 172; b1 = 17; b2 = 255; b3 = 255 },
)
unfolding network_range
docker0_range = refl

docker0_size : network_size docker0.mask ≡ 65536
unfolding network_size
docker0_size = refl
