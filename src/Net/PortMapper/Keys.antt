-- ===== src/Net/PortMapper/Keys.antt =====
-- The keys of the mappings tell host addresses apart.
use docker.Common.{ℕ, ◌≡◌, refl, sym, ap, Option, none, some, [], ◌∷◌, ◌++◌, Text, text_eq, nat_eq}
use docker.Common.Strings.Split.{IsFree, cut_last, cut_last-append}
use docker.Common.Strings.Decimal.{
  digits-IsFree, print_decimal, all_digits-print_decimal, print_decimal_injective,
}
use docker.Net.PortAllocator.{tcp, udp}
use docker.Net.Iptables.{ip_text}
use docker.Net.PortMapper.{Addr, tcp_addr, udp_addr, other, addr_key, get_key}

IsFree-append : (sep : ℕ) (s t : Text) → IsFree sep s → IsFree sep t → IsFree sep (s ++ t)
IsFree-append sep [] t f g = g
IsFree-append sep (c ∷ s) t f g = (f.0, IsFree-append sep s t f.1 g)

module _ (ip jp : Option Text) (port qort : ℕ) (proto qroto : Text) (f : IsFree b':' proto)
    (g : IsFree b':' qroto) (f' : IsFree b'/' proto) (g' : IsFree b'/' qroto) where
  tail_of : ℕ → Text → Text
  tail_of p r = print_decimal p ++ (b'/' ∷ r)

  tail-IsFree : (p : ℕ) (r : Text) → IsFree b':' r → IsFree b':' (tail_of p r)
  unfolding tail_of
  tail-IsFree p r h =
      IsFree-append b':' (print_decimal p) (b'/' ∷ r)
        (digits-IsFree b':' (print_decimal p) refl (all_digits-print_decimal p)) (refl, h)

  addr_key_parts :
      addr_key ip port proto ≡ addr_key jp qort qroto
      → (ip_text ip ≡ ip_text jp) × (port ≡ qort) × (proto ≡ qroto)
  unfolding addr_key tail_of
  addr_key_parts e =
      let a = cut_last-append b':' (ip_text ip) (tail_of port proto) (tail-IsFree port proto f) in
      let b = cut_last-append b':' (ip_text jp) (tail_of qort qroto) (tail-IsFree qort qroto g) in
      let k = ap (cut_last b':') e in
      let ips : ip_text ip ≡ ip_text jp = cc (a, b) in
      let tails : tail_of port proto ≡ tail_of qort qroto = cc (a, b) in
      let c = cut_last-append b'/' (print_decimal port) proto f' in
      let d = cut_last-append b'/' (print_decimal qort) qroto g' in
      let l = ap (cut_last b'/') tails in
      let ports : print_decimal port ≡ print_decimal qort = cc (c, d) in
      (ips, print_decimal_injective port qort ports, cc (c, d))

-- What the key of a host address is made of.
abbrev pub key_parts : Addr → Option (Text × ℕ × Text)
key_parts (tcp_addr ip port) = some (ip_text ip, port, tcp)
key_parts (udp_addr ip port) = some (ip_text ip, port, udp)
key_parts other = none

append-ne-nil : (s t : Text) (c : ℕ) → s ++ (c ∷ t) ≡ [] → ⊥
append-ne-nil [] t c e = cc
append-ne-nil (x ∷ s) t c e = cc

some_parts :
    {s t : Text} {m n : ℕ} {p q : Text}
    → (s ≡ t) × (m ≡ n) × (p ≡ q)
    → ◌≡◌ {A = Option (Text × ℕ × Text)} (some (s, m, p)) (some (t, n, q))
some_parts e = λ i. some (e.0 i, e.1 i, e.2 i)

tcp_colon : IsFree b':' tcp
tcp_colon = (refl, (refl, (refl, tt)))

tcp_slash : IsFree b'/' tcp
tcp_slash = (refl, (refl, (refl, tt)))

udp_colon : IsFree b':' udp
udp_colon = (refl, (refl, (refl, tt)))

udp_slash : IsFree b'/' udp
udp_slash = (refl, (refl, (refl, tt)))

-- Two addresses have one key only if they have the same IP text, port and protocol.
get_key_injective : (a b : Addr) → get_key a ≡ get_key b → key_parts a ≡ key_parts b
unfolding get_key addr_key
get_key_injective (tcp_addr ip p) (tcp_addr jp q) e =
    some_parts (addr_key_parts ip jp p q tcp tcp tcp_colon tcp_colon tcp_slash tcp_slash e)
get_key_injective (tcp_addr ip p) (udp_addr jp q) e =
    some_parts (addr_key_parts ip jp p q tcp udp tcp_colon udp_colon tcp_slash udp_slash e)
get_key_injective (udp_addr ip p) (tcp_addr jp q) e =
    some_parts (addr_key_parts ip jp p q udp tcp udp_colon tcp_colon udp_slash tcp_slash e)
get_key_injective (udp_addr ip p) (udp_addr jp q) e =
    some_parts (addr_key_parts ip jp p q udp udp udp_colon udp_colon udp_slash udp_slash e)
get_key_injective (tcp_addr ip p) other e = absurd (append-ne-nil (ip_text ip) _ b':' e)
get_key_injective (udp_addr ip p) other e = absurd (append-ne-nil (ip_text ip) _ b':' e)
get_key_injective other (tcp_addr jp q) e = absurd (append-ne-nil (ip_text jp) _ b':' (sym e))
get_key_injective other (udp_addr jp q) e = absurd (append-ne-nil (ip_text jp) _ b':' (sym e))
get_key_injective other other e = refl
