-- ===== src/Net/PortMapper/Tests.antt =====
-- Runs of Map and Unmap, and their theorems at concrete inputs.
use docker.Common.{
  ◌≡◌, refl, Bool, true, false, Option, some, [], ◌∷◌, Text, codes, arith, text_eq, nat_eq,
}
use docker.Common.Int.{pos}
use docker.Common.Maps.{lookup, insert, contains, add}
use docker.Common.Strings.{includes}
use docker.Common.Strings.Decimal.{print_decimal}
use docker.Net.PortAllocator.{ports_of, request_port, release_port, store_ports, tcp, udp}
use docker.Net.Iptables.{Tool, output, raw, is_done, forward_rules}
use docker.Net.PortMapper.{
  Addr, tcp_addr, udp_addr, Mapper, Mapping, Host, ok, get_key, map_port, unmap_port, add_mapping,
  forward,
}
use docker.Net.PortMapper.Rollback.{RolledBack, map_port-RolledBack, SamePorts}
use docker.Net.PortMapper.Unmapping.{Unmapped, unmap_port-Unmapped, unmap_port-map_port}

abbrev empty : Mapper
empty = record { ports = []; current_mappings = []; runs = [] }

abbrev container : Addr
container = tcp_addr (some (codes "172.17.0.2")) 80

abbrev any_ip : Option Text
any_ip = some (codes "0.0.0.0")

abbrev silent : Tool
silent = record { supports_xlock = true; exec = λ runs args. output [] }

-- A host on which every rule is set and the proxies start, or do not.
abbrev host_where : Bool → Host
host_where starts = record {
  tool = silent;
  chain = some (record { name = codes "DOCKER"; bridge = codes "docker0" });
  starts = λ p. starts;
}

abbrev mapping : Mapping
mapping = record {
  proto = tcp;
  userland_proxy = record {
    proto = tcp;
    host_ip = any_ip;
    host_port = 8080;
    container_ip = some (codes "172.17.0.2");
    container_port = 80;
  };
  host = tcp_addr any_ip 8080;
  container = container;
}

key_test : get_key (udp_addr any_ip 53) ≡ codes "0.0.0.0:53/udp"
unfolding get_key print_decimal
key_test = refl

mapped : Mapper
mapped = record {
  ports =
      (
        codes "0.0.0.0",
        (tcp, record { p = 8080 ∷ []; last = 0 }) ∷ (udp, record { p = []; last = 0 }) ∷ [],
      )
      ∷ [];
  current_mappings = (get_key (tcp_addr any_ip 8080), mapping) ∷ [];
  runs = (add_mapping (host_where true) empty mapping).0.runs;
}

map_port_test :
    map_port 16384 (host_where true) empty container any_ip (pos 8080)
    ≡ some (mapped, ok (tcp_addr any_ip 8080))
unfolding map_port mapped request_port release_port add_mapping get_key print_decimal forward
    forward_rules is_done raw includes ports_of store_ports lookup insert contains add
map_port_test = refl

map_port-RolledBack_example :
    RolledBack empty (map_port 16384 (host_where false) empty container any_ip (pos 8080))
map_port-RolledBack_example =
    map_port-RolledBack (host_where false) empty any_ip container (pos 8080) 16384 (omega arith) tt

unmap_port-Unmapped_example :
    Unmapped
      (host_where true)
      mapped
      (tcp_addr any_ip 8080)
      (unmap_port (host_where true) mapped (tcp_addr any_ip 8080))
unmap_port-Unmapped_example = unmap_port-Unmapped (host_where true) mapped (tcp_addr any_ip 8080)

unmap_test :
    unmap_port (host_where true) mapped (tcp_addr any_ip 8080)
    ≡ ((unmap_port (host_where true) mapped (tcp_addr any_ip 8080)).0, ok tt)
unfolding unmap_port lookup mapped get_key print_decimal forward forward_rules is_done raw includes
unmap_test = refl

unmap_port-map_port_example :
    (lookup [] (unmap_port (host_where true) mapped (tcp_addr any_ip 8080)).0.current_mappings
      ≡ lookup [] empty.current_mappings)
    × SamePorts empty.ports (unmap_port (host_where true) mapped (tcp_addr any_ip 8080)).0.ports
unmap_port-map_port_example =
    unmap_port-map_port (host_where true) empty any_ip 16384 container (pos 8080) mapped _
      (tcp_addr any_ip 8080) [] (omega arith) tt map_port_test unmap_test
