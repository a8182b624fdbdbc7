-- ===== src/Net/IpAllocator/Requests.antt =====
-- RequestIP and ReleaseIP on the allocated maps.
use docker.Common.{
  ℕ, ◌≤◌, ◌<◌, ◌≡◌, ◌≢◌, ◌∙◌, inl, inr, refl, ap, sym, subst, true, false, not, ◌&&◌, ◌||◌, Option,
  none, some, List, [], Text, arith, Option-cases, or_true, or_false, if◌then◌else◌, nat_eq,
  text_eq, ◌==◌, ==_iff, ==_refl,
}
use docker.Common.Words.{u32_mod, i32_sign, add32, sub32}
use docker.Common.Maps.{
  contains, add, remove, lookup, insert, lookup-insert, contains-add, contains-remove,
}
use docker.Net.Ipv4.{Ip, IpNet, IsIp, network_range}
use docker.Net.IpAllocator.{
  AllocatedMap, new_allocated_map, NetworkSet, Result, ok, err, no_available_ips,
  ip_already_allocated, key_of, ip_to_int, int_to_ip, get_position, check_ip, max_of, rounds_of,
  reserved_at, taken, get_next_ip, allocated_of, stored, request_ip, release_ip,
}
use docker.Net.IpAllocator.Search.{Scanned, full-Scanned}

-- The bytes of a word, and back.
int_to_ip-inverse : (n : ℕ) → n < u32_mod → ip_to_int (int_to_ip n) ≡ n
unfolding int_to_ip
int_to_ip-inverse n h = omega arith

pub ip_to_int-inverse : (a : Ip) → IsIp a → int_to_ip (ip_to_int a) ≡ a
unfolding int_to_ip
ip_to_int-inverse a h = ground arith

sub-add32 : (base at : ℕ) → base < u32_mod → at < u32_mod → sub32 (add32 base at) base ≡ at
sub-add32 base at h k = omega arith

abbrev pub base_of : IpNet → ℕ
base_of n = ip_to_int (network_range n).0

-- The position of the address that stands for a position is that position.
position_of_address :
    (n : IpNet) (at : ℕ)
    → base_of n < u32_mod
    → at < u32_mod
    → get_position n (int_to_ip (add32 (base_of n) at)) ≡ at
unfolding get_position
position_of_address n at h k =
    ap (λ (x : ℕ). sub32 x (base_of n)) (int_to_ip-inverse (add32 (base_of n) at) (omega arith))
    ∙ sub-add32 (base_of n) at h k

-- What a request for any address does: it takes the address of a position of the subnet that was
-- free and is not reserved, or changes nothing where every position is reserved or taken.
abbrev pub Got : IpNet → AllocatedMap → AllocatedMap × Result → Type 0
Got n m (m', ok a) =
    (1 ≤ m'.last)
    × (m'.last ≤ max_of n)
    × (reserved_at n m'.last ≡ false)
    × (contains m'.last m.p ≡ false)
    × (m'.p ≡ add m'.last m.p)
    × (a ≡ int_to_ip (add32 (base_of n) m'.last))
Got n m (m', err e) =
    (e ≡ no_available_ips)
    × (m' ≡ m)
    × ((t : ℕ) → 1 ≤ t → t ≤ max_of n → reserved_at n t ≡ false → contains t m.p ≡ true)

module _ (n : IpNet) (m : AllocatedMap) where
  taken-Got :
      (r : Option ℕ) (small : max_of n < i32_sign)
      → Scanned (max_of n) small (reserved_at n) m.p (λ t. (1 ≤ t) × (t ≤ max_of n)) r
      → Got n m (taken m n r)
  unfolding taken
  taken-Got none small h = (refl, refl, λ t lo hi free. or_true _ _ (h t (lo, hi)) free)
  taken-Got (some t) small h = (h.0, h.1, (or_false _ _ h.2).0, (or_false _ _ h.2).1, refl, refl)

  -- The next address of a subnet whose size fits, from a last position that is not negative.
  pub get_next_ip-Got : max_of n < i32_sign → m.last < i32_sign → Got n m (get_next_ip m n)
  unfolding get_next_ip
  get_next_ip-Got small nonneg =
      rw (rounds_lem small)
        (taken-Got _ small (full-Scanned (max_of n) small (reserved_at n) m.p m.last nonneg))
    where
      rounds_lem : max_of n < i32_sign → rounds_of (max_of n) ≡ max_of n
      rounds_lem h = ground arith

  next_position :
      {m' : AllocatedMap} {a : Ip}
      → base_of n < u32_mod
      → max_of n < i32_sign
      → Got n m (m', ok a)
      → get_position n a ≡ m'.last
  next_position {m'} {a} b small g =
      ap (get_position n) g.5 ∙ position_of_address n m'.last b (omega (arith, g.1))

  next-ne-own :
      {m' : AllocatedMap} {a : Ip}
      → base_of n < u32_mod
      → max_of n < i32_sign
      → Got n m (m', ok a)
      → a ≢ n.ip
  next-ne-own {m'} {a} b small g e =
      let same : add32 (base_of n) m'.last ≡ ip_to_int n.ip =
        sym (int_to_ip-inverse (add32 (base_of n) m'.last) (omega arith))
        ∙ ap ip_to_int (sym g.5 ∙ e) in
      let apart = (or_false (add32 (base_of n) m'.last == ip_to_int n.ip) _ g.2).0 in
      cc (apart, (==_iff (add32 (base_of n) m'.last) (ip_to_int n.ip)).1 same)

allocated_of-insert :
    (s : NetworkSet) (n k : IpNet) (m : AllocatedMap)
    → allocated_of (insert (key_of n) m s) k
      ≡ (if key_of n == key_of k then m else allocated_of s k)
unfolding allocated_of
allocated_of-insert s n k m = ground (arith, lookup-insert (key_of n) (key_of k) m s)

contains-nil : (j : ℕ) → contains j [] ≡ false
unfolding contains
contains-nil j = refl

module _ (s : NetworkSet) (n : IpNet) where
  -- The state after a request.
  allocated_of-request :
      (o : Option Ip) (k : IpNet)
      → allocated_of (request_ip s n o).0 k ≡ (
          if key_of n == key_of k
          then (elim o [
            | none ↦ (get_next_ip (allocated_of s n) n).0
            | some a ↦ (check_ip (allocated_of s n) n a).0
          ])
          else allocated_of s k)
  allocated_of-request none k = unfold request_ip in allocated_of-insert s n k _
  allocated_of-request (some a) k = unfold request_ip in allocated_of-insert s n k _

  allocated_of-some : {m : AllocatedMap} → lookup (key_of n) s ≡ some m → allocated_of s n ≡ m
  unfolding allocated_of
  allocated_of-some e = ground arith

  allocated_of-none : lookup (key_of n) s ≡ none → (allocated_of s n).p ≡ []
  unfolding allocated_of
  allocated_of-none e = ground arith

  allocated_of_same :
      (k : IpNet) → (key_of n == key_of k) ≡ true → allocated_of s k ≡ allocated_of s n
  unfolding allocated_of
  allocated_of_same k h =
      ap
        (λ (t : Text). elim (lookup t s) as (λ _. AllocatedMap) [
          | none ↦ new_allocated_map
          | some m ↦ m
        ])
        (sym ((==_iff (key_of n) (key_of k)).0 h))

  -- `ReleaseIP` takes the position of the address out of the set of its network, and no other
  -- position out of any set.
  allocated_of-release :
      (a : Ip) (k : IpNet) (j : ℕ)
      → contains j (allocated_of (release_ip s n a) k).p ≡ (
          not ((key_of n == key_of k) && (get_position n a == j))
          && contains j (allocated_of s k).p)
  unfolding release_ip
  allocated_of-release a k j = elim (Option-cases (lookup (key_of n) s)) [
    | inl e ↦
        rw (e, release_ip)
          (ground (arith, allocated_of-none e, allocated_of_same k, contains-nil j))
    | inr (m, e) ↦
        rw (e, release_ip)
          (ground (
            arith,
            allocated_of-some e,
            allocated_of_same k,
            allocated_of-insert s n k (record m { p = remove (get_position n a) m.p }),
            contains-remove (get_position n a) j m.p,
          ))
  ]

  stored_result :
      (res : AllocatedMap × Result) {s' : NetworkSet} {r : Result}
      → stored s n res ≡ (s', r)
      → (allocated_of s' n ≡ res.0) × (r ≡ res.1)
  stored_result (m, r) e = ground (arith, allocated_of-insert s n n m, ==_refl (key_of n))

  next_result :
      {s' : NetworkSet} {r : Result}
      → max_of n < i32_sign
      → (allocated_of s n).last < i32_sign
      → request_ip s n none ≡ (s', r)
      → Got n (allocated_of s n) (allocated_of s' n, r)
  unfolding request_ip
  next_result {s'} {r} small nonneg e =
      let (em, er) = stored_result (get_next_ip (allocated_of s n) n) e in
      subst (Got n (allocated_of s n)) (λ i. (sym em i, sym er i))
        (get_next_ip-Got n (allocated_of s n) small nonneg)

  -- A request for a given address, on both branches: an address whose position is taken is refused,
  -- any other is granted as it is. Either way its position is taken afterwards, and no other changes.
  request_ip_given :
      (a : Ip) (j : ℕ)
      → ((request_ip s n (some a)).1 ≡ (
          if contains (get_position n a) (allocated_of s n).p
          then err ip_already_allocated
          else ok a))
        × (contains j (allocated_of (request_ip s n (some a)).0 n).p
            ≡ (get_position n a == j || contains j (allocated_of s n).p))
  unfolding request_ip
  request_ip_given a j =
      let m = allocated_of s n in
      let after = λ (m' : AllocatedMap). allocated_of-insert s n n m' in
      ground (
        arith,
        after m,
        after (record { p = add (get_position n a) m.p; last = get_position n a }),
        ==_refl (key_of n),
        contains-add (get_position n a) j m.p,
        ==_iff (get_position n a) j,
      )

  -- A request for any address of a subnet whose size fits `int32`, from a last position that is not
  -- negative: the address that it returns is not the network's own, its position was free, and is the
  -- one position taken by the request.
  pub request_ip_fresh :
      {s' : NetworkSet} {a : Ip} (j : ℕ)
      → base_of n < u32_mod
      → max_of n < i32_sign
      → (allocated_of s n).last < i32_sign
      → request_ip s n none ≡ (s', ok a)
      → (a ≢ n.ip)
        × (contains (get_position n a) (allocated_of s n).p ≡ false)
        × (contains j (allocated_of s' n).p
            ≡ (get_position n a == j || contains j (allocated_of s n).p))
  request_ip_fresh {s'} {a} j base small nonneg e =
      let g : Got n (allocated_of s n) (allocated_of s' n, ok a) = next_result small nonneg e in
      let at = next_position n (allocated_of s n) base small g in
      (
        next-ne-own n (allocated_of s n) base small g,
        rw at g.3,
        rw at (ap (λ (t : List ℕ). contains j t) g.4 ∙ contains-add _ j _),
      )
