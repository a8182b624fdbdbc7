-- ===== src/Config/Ports/Tests.antt =====
-- Specifications that are read or refused, and the theorems at concrete ports.
use docker.Common.{◌≡◌, refl, Bool, ◌==◌, [], ◌∷◌, codes, Text, nat_eq, text_eq}
use docker.Common.Results.{ok, err}
use docker.Common.Maps.{contains, lookup, insert, add}
use docker.Common.Strings.{has_byte}
use docker.Common.Strings.Split.{split, cut_last}
use docker.Common.Strings.Decimal.{parse_uint}
use docker.Config.Parsers.{part_parser, field, fill_template}
use docker.Config.Ports.{
  PortSet, PortMap, new_port, parse_port, validate_proto, is_port, cut_proto, pad_spec, check_parts,
  check_fields, parse_port_spec, bindings_of, add_binding, parse_specs, parse_port_specs,
  invalid_proto,
}
use docker.Config.Ports.Specs.{write_spec, parse_port_spec-write_spec}
use docker.Config.Ports.Exposed.{Acceptable, parse_port_specs-Acceptable}

abbrev local_ip : Text → Bool
local_ip s = s == codes "127.0.0.1"

abbrev http : PortSet × PortMap
http = (
  codes "80/tcp" ∷ [],
  (codes "80/tcp", record { host_ip = []; host_port = codes "8080" } ∷ []) ∷ [],
)

http_specs : parse_port_specs local_ip (codes "8080:80" ∷ []) ≡ ok http
unfolding parse_port_specs parse_specs parse_port_spec cut_proto cut_last pad_spec has_byte split
    part_parser fill_template insert check_fields check_parts field lookup is_port parse_port
    parse_uint validate_proto new_port add_binding add contains bindings_of
http_specs = refl

bad_proto : parse_port_specs local_ip (codes "80/icmp" ∷ []) ≡ err (invalid_proto (codes "icmp"))
unfolding parse_port_specs parse_specs parse_port_spec cut_proto cut_last pad_spec has_byte split
    part_parser fill_template insert check_fields check_parts field lookup is_port parse_port
    parse_uint validate_proto
bad_proto = refl

parse_port_spec-write_spec_example :
    parse_port_spec local_ip (write_spec [] (codes "53") (codes "53") (codes "udp"))
    ≡ ok (new_port (codes "udp") (codes "53"), record { host_ip = []; host_port = codes "53" })
unfolding validate_proto is_port parse_port parse_uint
parse_port_spec-write_spec_example =
    parse_port_spec-write_spec local_ip [] (codes "53") (codes "53") (codes "udp") tt
      (refl, (refl, tt)) (refl, (refl, tt)) (refl, (refl, (refl, tt))) refl refl refl refl

parse_port_specs-Acceptable_example : Acceptable (codes "80/tcp")
unfolding contains
parse_port_specs-Acceptable_example =
    parse_port_specs-Acceptable local_ip (codes "8080:80" ∷ []) http.0 http.1 (codes "80/tcp")
      http_specs refl
