-- ===== src/Config/Ports.antt =====
-- Ports as texts `80/tcp`, and the specifications of -p: nat/nat.go.
pub mod Specs
pub mod Exposed
mod Tests
use docker.Common.{
  ℕ, Bool, true, false, ◌||◌, ◌&&◌, not, Option, none, some, List, [], ◌∷◌, ◌++◌, Text, codes,
  length, ◌==◌, if◌then◌else◌, get_elem?, nat_eq, text_eq, ◌^◌,
}
use docker.Common.Results.{Result, ok, err}
use docker.Common.Maps.{lookup, insert, contains, add}
use docker.Common.Strings.{has_byte}
use docker.Common.Strings.Split.{split, cut_last}
use docker.Common.Strings.Decimal.{parse_uint}
use docker.Config.Parsers.{ParseError, Fields, field, part_parser}

abbrev pub Port : Type 0
Port = Text

pub record PortBinding : Type 0 where
  pub host_ip : Text
  pub host_port : Text

abbrev pub PortMap : Type 0
PortMap = List (Port × List PortBinding)

abbrev pub PortSet : Type 0
PortSet = List Port

abbrev pub port_spec_template : Text
port_spec_template = codes "ip:hostPort:containerPort"

-- fmt.Sprintf("%s/%s", port, proto)
unfoldable pub new_port : Text → Text → Port
new_port proto port = port ++ (b'/' ∷ proto)

-- strconv.ParseUint(rawPort, 10, 16)
unfoldable pub parse_port : Text → Option ℕ
parse_port raw = parse_uint 65536 raw

-- `strings.Split` never returns an empty list, so that the first part is there.
unfoldable pub proto_of : Port → Text
proto_of p = elim (split b'/' p) [
  | [] ↦ codes "tcp"
  | first ∷ [] ↦ codes "tcp"
  | first ∷ proto ∷ parts ↦ proto
]

unfoldable pub port_of : Port → Text
port_of p = elim (split b'/' p) [ [] ↦ [] | first ∷ parts ↦ first ]

-- The protocol and the port of `port/proto`.
unfoldable pub split_proto_port : Text → Text × Text
split_proto_port raw = elim (split b'/' raw) [
  | [] ↦ ([], [])
  | first ∷ [] ↦ if raw == [] then ([], []) else (codes "tcp", raw)
  | first ∷ proto ∷ parts ↦ (proto, first)
]

unfoldable pub validate_proto : Text → Bool
validate_proto proto = codes "tcp" == proto || codes "udp" == proto

pub data SpecError : Type 0 where
  bad_template : ParseError → SpecError
  invalid_ip : Text → SpecError
  no_port_specified : Text → SpecError
  invalid_container_port : Text → SpecError
  invalid_host_port : Text → SpecError
  invalid_proto : Text → SpecError

-- The protocol behind the last slash, `tcp` if there is none, and what stands before it.
unfoldable pub cut_proto : Text → Text × Text
cut_proto raw = elim (cut_last b'/' raw) [
  | none ↦ (codes "tcp", raw)
  | some (rest, proto) ↦ (proto, rest)
]

-- The missing parts of ip:hostPort:containerPort are put in as empty ones.
unfoldable pub pad_spec : Text → Text
pad_spec raw =
    if not (has_byte b':' raw)
    then codes "::" ++ raw
    else (if length (split b':' raw) == 2 then codes ":" ++ raw else raw)

unfoldable pub is_port : Text → Bool
is_port text = elim (parse_port text) [ none ↦ false | some n ↦ true ]

-- The checks on the parts of one specification, in the code's order. `is_ip` is whether net.ParseIP
-- reads a text.
unfoldable pub check_parts :
    (Text → Bool) → Text → Text → Text → Text → Text → Result SpecError (Port × PortBinding)
check_parts is_ip raw proto raw_ip host_port container_port =
    if not (raw_ip == []) && not (is_ip raw_ip)
    then err (invalid_ip raw_ip)
    else (if container_port == []
        then err (no_port_specified raw)
        else (if not (is_port container_port)
            then err (invalid_container_port container_port)
            else (if not (host_port == []) && not (is_port host_port)
                then err (invalid_host_port host_port)
                else (if not (validate_proto proto)
                    then err (invalid_proto proto)
                    else ok (
                      new_port proto container_port,
                      record { host_ip = raw_ip; host_port = host_port },
                    )))))

unfoldable pub check_fields :
    (Text → Bool) → Text → Text → Result ParseError Fields → Result SpecError (Port × PortBinding)
check_fields is_ip padded proto (err e) = err (bad_template e)
check_fields is_ip padded proto (ok parts) =
    check_parts is_ip padded proto (field (codes "ip") parts) (field (codes "hostPort") parts)
      (field (codes "containerPort") parts)

-- The body of the loop of ParsePortSpecs, without the two maps.
unfoldable pub parse_port_spec : (Text → Bool) → Text → Result SpecError (Port × PortBinding)
parse_port_spec is_ip raw =
    let (proto, rest) = cut_proto raw in
    check_fields is_ip (pad_spec rest) proto (part_parser port_spec_template (pad_spec rest))

-- The bindings of a port: none if the key is missing.
unfoldable pub bindings_of : Port → PortMap → List PortBinding
bindings_of port bindings = elim (lookup port bindings) [ none ↦ [] | some bs ↦ bs ]

unfoldable pub add_binding : Port → PortBinding → PortSet × PortMap → PortSet × PortMap
add_binding port binding (exposed, bindings) =
    (add port exposed, insert port (bindings_of port bindings ++ (binding ∷ [])) bindings)

-- The loop over the specifications; the first error ends it.
unfoldable pub parse_specs :
    (Text → Bool) → List Text → PortSet × PortMap → Result SpecError (PortSet × PortMap)
parse_specs is_ip [] maps = ok maps
parse_specs is_ip (raw ∷ ports) maps = elim (parse_port_spec is_ip raw) [
  | err e ↦ err e
  | ok (port, binding) ↦ parse_specs is_ip ports (add_binding port binding maps)
]

unfoldable pub parse_port_specs : (Text → Bool) → List Text → Result SpecError (PortSet × PortMap)
parse_port_specs is_ip ports = parse_specs is_ip ports ([], [])
