-- ===== src/Config/Ports/Specs.antt =====
-- Ports and specifications are read as they are written.
use docker.Common.{
  ◌≡◌, refl, ap, ◌∙◌, Bool, true, false, ◌||◌, ◌&&◌, not, [], ◌∷◌, ◌++◌, Text, codes, arith, ◌==◌,
  nat_eq, text_eq,
}
use docker.Common.Results.{ok}
use docker.Common.Maps.{lookup, insert}
use docker.Common.Strings.Split.{IsFree, split, split-append, split_one, cut_last-append}
use docker.Common.Strings.{has_byte}
use docker.Config.Parsers.{field, fill_template, part_parser}
use docker.Common.Strings.Decimal.{parse_uint}
use docker.Config.Ports.{
  new_port, parse_port, proto_of, port_of, split_proto_port, validate_proto, is_port, cut_proto,
  pad_spec, check_fields, port_spec_template, check_parts, parse_port_spec,
}

-- A port of digits and a protocol, neither of them with a slash, are read back from the text that
-- NewPort makes of them: by Proto, by Port and by SplitProtoPort.
new_port-read :
    (proto port : Text)
    → IsFree b'/' proto
    → IsFree b'/' port
    → (proto_of (new_port proto port) ≡ proto)
      × (port_of (new_port proto port) ≡ port)
      × (split_proto_port (new_port proto port) ≡ (proto, port))
unfolding new_port proto_of port_of split_proto_port
new_port-read proto port f g =
    let e : split b'/' (port ++ (b'/' ∷ proto)) ≡ port ∷ proto ∷ [] =
      split-append b'/' port proto g ∙ ap (λ (t : _). port ∷ t) (split_one b'/' proto f) in
    (
      rw (e, new_port, proto_of) refl,
      rw (e, new_port, port_of) refl,
      rw (e, new_port, split_proto_port) refl,
    )

-- The text of a specification with all of its parts.
abbrev pub write_spec : Text → Text → Text → Text → Text
write_spec ip host_port container_port proto =
    (ip ++ (b':' ∷ (host_port ++ (b':' ∷ container_port)))) ++ (b'/' ∷ proto)

neither_of : (a b : Bool) → (a || b) ≡ true → (not a && not b) ≡ false
neither_of a b h = ground arith

is_port_cons : (s : Text) → is_port s ≡ true → (s == []) ≡ false
unfolding is_port parse_port parse_uint
is_port_cons [] h = ground arith
is_port_cons (c ∷ s) h = refl

module _ (is_ip : Text → Bool) (ip host_port container_port proto : Text) where
  has_byte-append : (s t : Text) → has_byte b':' (s ++ (b':' ∷ t)) ≡ true
  unfolding has_byte
  has_byte-append [] t = refl
  has_byte-append (c ∷ s) t = ground (arith, has_byte-append s t)

  split_three :
      IsFree b':' ip
      → IsFree b':' host_port
      → IsFree b':' container_port
      → split b':' (ip ++ (b':' ∷ (host_port ++ (b':' ∷ container_port))))
        ≡ ip ∷ host_port ∷ container_port ∷ []
  split_three f g h =
      split-append b':' ip (host_port ++ (b':' ∷ container_port)) f
      ∙ ap (λ (t : _). ip ∷ t)
          (split-append b':' host_port container_port g
            ∙ ap (λ (t : _). host_port ∷ t) (split_one b':' container_port h))

  pad_three :
      IsFree b':' ip
      → IsFree b':' host_port
      → IsFree b':' container_port
      → pad_spec (ip ++ (b':' ∷ (host_port ++ (b':' ∷ container_port))))
        ≡ ip ++ (b':' ∷ (host_port ++ (b':' ∷ container_port)))
  unfolding pad_spec
  pad_three f g h =
      rw (has_byte-append ip (host_port ++ (b':' ∷ container_port)), split_three f g h, pad_spec)
        refl

  fields_three :
      IsFree b':' ip
      → IsFree b':' host_port
      → IsFree b':' container_port
      → part_parser port_spec_template (ip ++ (b':' ∷ (host_port ++ (b':' ∷ container_port))))
        ≡ ok (
            (codes "ip", ip)
            ∷ (codes "hostPort", host_port)
            ∷ (codes "containerPort", container_port)
            ∷ [])
  unfolding part_parser split fill_template insert
  fields_three f g h = rw (split_three f g h, part_parser) refl

  cut_three :
      IsFree b'/' proto
      → cut_proto (write_spec ip host_port container_port proto)
        ≡ (proto, ip ++ (b':' ∷ (host_port ++ (b':' ∷ container_port))))
  unfolding cut_proto
  cut_three p =
      rw
        (
          cut_last-append b'/' (ip ++ (b':' ∷ (host_port ++ (b':' ∷ container_port)))) proto p,
          cut_proto,
        )
        refl

  check_three :
      (raw : Text)
      → validate_proto proto ≡ true
      → is_port container_port ≡ true
      → (host_port == [] || is_port host_port) ≡ true
      → (ip == [] || is_ip ip) ≡ true
      → check_parts is_ip raw proto ip host_port container_port
        ≡ ok (new_port proto container_port, record { host_ip = ip; host_port = host_port })
  unfolding check_parts
  check_three raw known port host addr =
      rw
        (
          neither_of (ip == []) (is_ip ip) addr,
          is_port_cons container_port port,
          port,
          neither_of (host_port == []) (is_port host_port) host,
          known,
          check_parts,
        )
        refl

  -- A specification ip:hostPort:containerPort/proto, written from parts that hold no colon, whose
  -- protocol is tcp or udp, whose container port is a number of 16 bits and whose host port and
  -- address are empty or such a number and an address, is read back as just these parts.
  pub parse_port_spec-write_spec :
      IsFree b':' ip
      → IsFree b':' host_port
      → IsFree b':' container_port
      → IsFree b'/' proto
      → validate_proto proto ≡ true
      → is_port container_port ≡ true
      → (host_port == [] || is_port host_port) ≡ true
      → (ip == [] || is_ip ip) ≡ true
      → parse_port_spec is_ip (write_spec ip host_port container_port proto)
        ≡ ok (new_port proto container_port, record { host_ip = ip; host_port = host_port })
  unfolding parse_port_spec check_fields field lookup
  parse_port_spec-write_spec f g h p known port host addr =
      rw (cut_three p, pad_three f g h, fields_three f g h, parse_port_spec)
        (check_three (ip ++ (b':' ∷ (host_port ++ (b':' ∷ container_port)))) known port host addr)
