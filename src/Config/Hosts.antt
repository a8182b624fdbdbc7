-- ===== src/Config/Hosts.antt =====
-- The addresses that the daemon listens on: ParseHost of pkg/parsers/parsers.go.
mod Tests
use docker.Common.{
  ℕ, suc, ◌-◌, Bool, true, false, not, Option, none, some, List, [], ◌∷◌, ◌++◌, Text, codes, ◌==◌,
  if◌then◌else◌, nat_eq, text_eq,
}
use docker.Common.Int.{ℤ, pos, negsuc}
use docker.Common.Results.{Result, ok, err}
use docker.Common.Strings.{has_prefix, trim_prefix, includes, has_byte, trim_space}
use docker.Common.Strings.Split.{split}
use docker.Common.Strings.Decimal.{print_decimal, parse_uint}

-- Minus a number.
abbrev negated : ℕ → ℤ
negated n = if n == 0 then pos 0 else negsuc (n - 1)

-- strconv.Atoi: a number of 64 bits with an optional sign; `none` is an error
unfoldable pub atoi : Text → Option ℤ
unfolding parse_uint
atoi [] = none
atoi (c ∷ s) =
    if c == b'-'
    then elim (parse_uint 9223372036854775809 s) [ none ↦ none | some n ↦ some (negated n) ]
    else elim (parse_uint 9223372036854775808 (if c == b'+' then s else c ∷ s)) [
      | none ↦ none
      | some n ↦ some (pos n)
    ]

-- The verb %d
unfoldable pub print_int : ℤ → Text
print_int (pos n) = print_decimal n
print_int (negsuc n) = b'-' ∷ print_decimal (suc n)

pub data HostError : Type 0 where
  invalid_format : Text → HostError
  invalid_protocol : Text → HostError

-- The address behind `unix://`.
unfoldable pub unix_address : Text → Result HostError Text
unix_address host = ok (codes "unix://" ++ host)

-- Host and port, where the port is a number and not 0.
unfoldable pub with_port : Text → Text → Option ℤ → Result HostError Text
with_port addr host none = err (invalid_format addr)
with_port addr host (some p) =
    if p_is_zero p
    then err (invalid_format addr)
    else ok (codes "tcp://" ++ host ++ (b':' ∷ print_int p))
  where
    p_is_zero : ℤ → Bool
    p_is_zero (pos n) = n == 0
    p_is_zero (negsuc n) = false

-- The address behind `tcp://`, or without a protocol.
unfoldable pub tcp_address : Text → Text → Result HostError Text
unfolding with_port atoi split
tcp_address default_host addr = elim (split b':' addr) [
  | [] ↦ err (invalid_format addr)
  | host ∷ [] ↦ err (invalid_format addr)
  | host ∷ port ∷ [] ↦ with_port addr (if host == [] then default_host else host) (atoi port)
  | host ∷ port ∷ part ∷ parts ↦ err (invalid_format addr)
]

unfoldable pub parse_trimmed : Text → Text → Text → Result HostError Text
unfolding unix_address tcp_address includes
parse_trimmed default_host default_unix addr =
    if addr == codes "tcp://"
    then err (invalid_format addr)
    else (if has_prefix addr (codes "unix://")
        then (let path = trim_prefix addr (codes "unix://") in
            unix_address (if path == [] then default_unix else path))
        else (if has_prefix addr (codes "tcp://")
            then tcp_address default_host (trim_prefix addr (codes "tcp://"))
            else (if has_prefix addr (codes "fd://")
                then ok addr
                else (if addr == []
                    then unix_address default_unix
                    else (if includes addr (codes "://")
                        then err (invalid_protocol addr)
                        else tcp_address default_host addr)))))

unfoldable pub parse_host : Text → Text → Text → Result HostError Text
unfolding parse_trimmed trim_space
parse_host default_host default_unix addr =
    parse_trimmed default_host default_unix (trim_space addr)
