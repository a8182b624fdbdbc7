-- ===== src/Net/Bridge/Tests.antt =====
-- The jobs of the bridge driver at concrete containers, and their theorems.
use docker.Common.{◌≡◌, refl, true, false, none, some, [], codes, text_eq, nat_eq}
use docker.Common.Int.{pos}
use docker.Common.Results.{err}
use docker.Common.Maps.{lookup}
use docker.Common.Strings.{includes}
use docker.Common.Strings.Decimal.{print_decimal}
use docker.Net.Ipv4.{Ip}
use docker.Net.Iptables.{Tool, output, raw}
use docker.Net.PortMapper
use docker.Net.PortMapper.{Addr, tcp_addr, other, Mapper, Host, map_port}
use docker.Net.Bridge.{
  Driver, Settings, release, try_map, ip_to_text, mask_size, Link, link_error,
  no_network_information,
}
use docker.Net.Bridge.Retries.{try_map-map_port}
use docker.Net.Bridge.Rules.{succeeded, rule_exists, ensure_rule, run_steps, setup_iptables}

abbrev ip_at : Ip
ip_at = record { b0 = 172; b1 = 17; b2 = 42; b3 = 1 }

abbrev settings : Settings
settings = record {
  bridge_network = record { ip = ip_at; mask = record { b0 = 255; b1 = 255; b2 = 255; b3 = 0 } };
  bridge_iface = codes "docker0";
  default_binding_ip = some (codes "0.0.0.0");
  parse_ip = λ s. some s;
}

abbrev mapper : Mapper
mapper = record { ports = []; current_mappings = []; runs = [] }

abbrev driver : Driver
driver = record { ips = []; mapper = mapper; interfaces = [] }

abbrev silent : Tool
silent = record { supports_xlock = true; exec = λ runs args. output [] }

abbrev host : Host
host = record { tool = silent; chain = none; starts = λ p. true }

abbrev link : Link
link = record {
  action = codes "-I";
  parent_ip = codes "172.17.0.2";
  child_ip = codes "172.17.0.3";
  ignore_errors = false;
}

gateway_text : ip_to_text ip_at ≡ codes "172.17.42.1"
unfolding ip_to_text print_decimal
gateway_text = refl

prefix_len : mask_size settings.bridge_network.mask ≡ 24
unfolding mask_size
prefix_len = refl

no_interface :
    (release settings host (codes "c") driver).1 ≡ err (no_network_information (codes "c"))
unfolding release lookup
no_interface = refl

try_map-map_port_example :
    try_map 16384 host
      (tcp_addr (some (codes "172.17.0.2")) 80)
      (some (codes "0.0.0.0"))
      (pos 0)
      10
      (mapper, PortMapper.ok other)
    ≡ map_port 16384 host mapper
        (tcp_addr (some (codes "172.17.0.2")) 80)
        (some (codes "0.0.0.0"))
        (pos 0)
try_map-map_port_example =
    try_map-map_port 16384 host (tcp_addr (some (codes "172.17.0.2")) 80) (some (codes "0.0.0.0"))
      (pos 0) 9 (mapper, PortMapper.ok other)

set_up : (setup_iptables silent (codes "docker0") (codes "172.17.42.1/16") false []).0 ≡ none
unfolding setup_iptables run_steps ensure_rule rule_exists succeeded link_error raw includes
set_up = refl
