-- ===== src/Config/Hosts/Tests.antt =====
-- Addresses that are read, with the defaults of the daemon, and addresses that are refused.
use docker.Common.{◌≡◌, refl, codes, Text}
use docker.Common.Results.{Result, ok, err}
use docker.Common.Strings.{includes, trim_space}
use docker.Common.Strings.Split.{split}
use docker.Common.Strings.Decimal.{print_decimal, parse_uint}
use docker.Config.Hosts.{
  HostError, invalid_format, invalid_protocol, atoi, print_int, unix_address, with_port,
  tcp_address, parse_trimmed, parse_host,
}

abbrev read : Text → Result HostError Text
read = parse_host (codes "127.0.0.1") (codes "/var/run/docker.sock")

default_host : read (codes "tcp://:2375 ") ≡ ok (codes "tcp://127.0.0.1:2375")
unfolding parse_host parse_trimmed trim_space tcp_address with_port atoi split parse_uint print_int
    print_decimal
default_host = refl

default_socket : read (codes "unix://") ≡ ok (codes "unix:///var/run/docker.sock")
unfolding parse_host parse_trimmed trim_space unix_address
default_socket = refl

no_port : read (codes "0.0.0.0") ≡ err (invalid_format (codes "0.0.0.0"))
unfolding parse_host parse_trimmed trim_space tcp_address split includes
no_port = refl

other_protocol : read (codes "udp://h:1") ≡ err (invalid_protocol (codes "udp://h:1"))
unfolding parse_host parse_trimmed trim_space includes
other_protocol = refl
