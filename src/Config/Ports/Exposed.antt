-- ===== src/Config/Ports/Exposed.antt =====
-- What ParsePortSpecs accepts, and how its two maps agree.
use docker.Common.{
  ◌≡◌, refl, subst, sym, ap, Bool, true, false, ◌||◌, ◌&&◌, not, none, some, inl, inr, List, [],
  ◌∷◌, Text, codes, arith, Bool-cases, ◌==◌, ==_iff, nat_eq, text_eq,
}
use docker.Common.Results.{Result, ok, err}
use docker.Common.Maps.{lookup, contains, contains-add}
use docker.Config.Parsers.{ParseError, Fields, field, part_parser}
use docker.Config.Ports.{
  Port, PortBinding, PortMap, PortSet, new_port, validate_proto, SpecError, is_port, cut_proto,
  pad_spec, check_fields, port_spec_template, check_parts, parse_port_spec, add_binding,
  parse_specs, parse_port_specs,
}

-- A port that a specification may stand for: its protocol is known, and its number is one of 16
-- bits.
abbrev pub Accepted : (Text → Bool) → Result SpecError (Port × PortBinding) → Type 0
Accepted is_ip (err e) = Unit {0}
Accepted is_ip (ok (port, binding)) =
    (proto : Text) × (container_port : Text) × (port ≡ new_port proto container_port)
    × (validate_proto proto ≡ true)
    × (is_port container_port ≡ true)
    × ((binding.host_port == [] || is_port binding.host_port) ≡ true)
    × ((binding.host_ip == [] || is_ip binding.host_ip) ≡ true)

either_of : (a b : Bool) → (not a && not b) ≡ false → (a || b) ≡ true
either_of a b h = ground arith

module _ (is_ip : Text → Bool) where
  check_parts-Accepted :
      (raw proto raw_ip host_port container_port : Text)
      → Accepted is_ip (check_parts is_ip raw proto raw_ip host_port container_port)
  unfolding check_parts
  check_parts-Accepted raw proto raw_ip host_port container_port =
      elim (Bool-cases (not (raw_ip == []) && not (is_ip raw_ip))) [
        | inl a ↦ rw (a, check_parts) tt
        | inr a ↦ elim (Bool-cases (container_port == [])) [
          | inl b ↦ rw (a, b, check_parts) tt
          | inr b ↦ elim (Bool-cases (is_port container_port)) [
            | inr c ↦ rw (a, b, c, check_parts) tt
            | inl c ↦ elim (Bool-cases (not (host_port == []) && not (is_port host_port))) [
              | inl d ↦ rw (a, b, c, d, check_parts) tt
              | inr d ↦ elim (Bool-cases (validate_proto proto)) [
                | inr e ↦ rw (a, b, c, d, e, check_parts) tt
                | inl e ↦
                    rw (a, b, c, d, e, check_parts)
                      (proto, container_port, refl, e, c, either_of _ _ d, either_of _ _ a)
              ]
            ]
          ]
        ]
      ]

  check_fields-Accepted :
      (padded proto : Text) (fields : Result ParseError Fields)
      → Accepted is_ip (check_fields is_ip padded proto fields)
  unfolding check_fields
  check_fields-Accepted padded proto (err e) = tt
  check_fields-Accepted padded proto (ok parts) =
      check_parts-Accepted padded proto (field (codes "ip") parts) (field (codes "hostPort") parts)
        (field (codes "containerPort") parts)

  parse_port_spec-Accepted : (raw : Text) → Accepted is_ip (parse_port_spec is_ip raw)
  unfolding parse_port_spec
  parse_port_spec-Accepted raw =
      check_fields-Accepted (pad_spec (cut_proto raw).1) (cut_proto raw).0
        (part_parser port_spec_template (pad_spec (cut_proto raw).1))

-- Whether a port has an entry in the map of the bindings.
abbrev pub is_bound : Port → PortMap → Bool
is_bound port bindings = elim (lookup port bindings) [ none ↦ false | some bs ↦ true ]

-- A port of a known protocol, with a number of 16 bits.
abbrev pub Acceptable : Port → Type 0
Acceptable port =
    (proto : Text) × (container_port : Text) × (port ≡ new_port proto container_port)
    × (validate_proto proto ≡ true)
    × (is_port container_port ≡ true)

older :
    (port other : Port) (binding : PortBinding) (maps : PortSet × PortMap)
    → (port == other) ≡ false
    → contains other (add_binding port binding maps).0 ≡ true
    → contains other maps.0 ≡ true
unfolding add_binding
older port other binding (exposed, bindings) n c = ground (arith, contains-add port other exposed)

ok_injective :
    {x y : PortSet × PortMap} → ◌≡◌ {A = Result SpecError (PortSet × PortMap)} (ok x) (ok y) → x ≡ y
ok_injective {x} e =
    ap (λ (r : Result SpecError (PortSet × PortMap)). elim r [ ok y ↦ y | err f ↦ x ]) e

module _ (is_ip : Text → Bool) where
  next_spec :
      (raw : Text) (ports : List Text) (maps done : PortSet × PortMap)
      → parse_specs is_ip (raw ∷ ports) maps ≡ ok done
      → (port : Port) × (binding : PortBinding) × (parse_port_spec is_ip raw ≡ ok (port, binding))
        × (parse_specs is_ip ports (add_binding port binding maps) ≡ ok done)
  unfolding parse_specs
  next_spec raw ports maps done e = step (parse_port_spec is_ip raw) refl e
    where
      step :
          (r : Result SpecError (Port × PortBinding))
          → parse_port_spec is_ip raw ≡ r
          → (elim r [
            | err e ↦ err e
            | ok (port, binding) ↦ parse_specs is_ip ports (add_binding port binding maps)
          ])
            ≡ ok done
          → (port : Port) × (binding : PortBinding) × (parse_port_spec is_ip raw
              ≡ ok (port, binding))
            × (parse_specs is_ip ports (add_binding port binding maps) ≡ ok done)
      step (err x) k e = absurd (ground arith)
      step (ok (port, binding)) k e = (port, binding, k, e)

  parse_specs-Accepted :
      (ports : List Text) (maps done : PortSet × PortMap) (port : Port)
      → (contains port maps.0 ≡ true → Acceptable port)
      → parse_specs is_ip ports maps ≡ ok done
      → contains port done.0 ≡ true
      → Acceptable port
  unfolding parse_specs
  parse_specs-Accepted [] maps done port h e c =
      h (subst (λ (m : PortSet × PortMap). contains port m.0 ≡ true) (sym (ok_injective e)) c)
  parse_specs-Accepted (raw ∷ ports) maps done port h e c =
      let (first, binding, k, rest) = next_spec raw ports maps done e in
      let accepted : Accepted is_ip (ok (first, binding)) =
        rw k at (parse_port_spec-Accepted is_ip raw) in
      parse_specs-Accepted ports (add_binding first binding maps) done port
        (λ in'. elim (Bool-cases (first == port)) [
          | inl same ↦
              subst Acceptable ((==_iff first port).0 same)
                (accepted.0, accepted.1, accepted.2, accepted.3, accepted.4)
          | inr other ↦ h (older first port binding maps other in')
        ])
        rest c

  -- Every port that ParsePortSpecs exposes is written `port/proto`, with a number of 16 bits and the
  -- protocol tcp or udp, whatever the specifications.
  pub parse_port_specs-Acceptable :
      (ports : List Text) (exposed : PortSet) (bindings : PortMap) (port : Port)
      → parse_port_specs is_ip ports ≡ ok (exposed, bindings)
      → contains port exposed ≡ true
      → Acceptable port
  unfolding parse_port_specs contains
  parse_port_specs-Acceptable ports exposed bindings port e c =
      parse_specs-Accepted ports ([], []) (exposed, bindings) port (λ n. absurd (ground arith)) e c
