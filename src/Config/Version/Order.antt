-- ===== src/Config/Version/Order.antt =====
-- The order of versions that are numbers with dots between them.
use docker.Common.{
  ℕ, zero, suc, ◌+◌, ◌-◌, ◌*◌, ◌≤◌, ◌<◌, ◌≡◌, ◌∙◌, refl, sym, ap, subst, true, false, inl, inr,
  List, [], ◌∷◌, map, Text, arith, Bool-cases, ltb, ◌==◌, nat_eq,
}
use docker.Common.Int.{ℤ, pos, negsuc}
use docker.Common.Strings.Decimal.{
  print_decimal, all_digits, value_from, value-print_decimal, all_digits-print_decimal,
  print_decimal-cons, digits-IsFree,
}
use docker.Common.Strings.Split.{split, join, AreFree, split-join}
use docker.Config.Version.{scan_uint, clamped, number, decided, compare_tabs, compare_to}

-- The numbers of a version by position, 0 where there is none.
abbrev pub part : List ℕ → ℕ → ℕ
part [] i = 0
part (n ∷ ns) zero = n
part (n ∷ ns) (suc i) = part ns i

-- The first difference is to the advantage of the second.
abbrev pub Precedes : (ℕ → ℕ) → (ℕ → ℕ) → Type 0
Precedes f g = (i : ℕ) × ((j : ℕ) → j < i → f j ≡ g j) × (f i < g i)

-- What the result of a comparison says of the parts.
abbrev pub Ordered : (ℕ → ℕ) → (ℕ → ℕ) → ℤ → Type 0
Ordered f g (pos zero) = (i : ℕ) → f i ≡ g i
Ordered f g (pos (suc zero)) = Precedes g f
Ordered f g (pos (suc (suc n))) = ⊥
Ordered f g (negsuc zero) = Precedes f g
Ordered f g (negsuc (suc n)) = ⊥

-- The numbers of Go's int.
abbrev pub AreInts : List ℕ → Type 0
AreInts [] = Unit
AreInts (n ∷ ns) = (n < 9223372036854775808) × AreInts ns

abbrev pub written_version : ℕ → List ℕ → Text
written_version n ns = join b'.' (map print_decimal (n ∷ ns))

value_from-le : (v : ℕ) (s : Text) → v ≤ value_from v s
value_from-le v [] = omega arith
value_from-le v (c ∷ s) = omega (arith, value_from-le (v * 10 + (c - b'0')) s)

scan_uint-value :
    (v : ℕ) (s : Text)
    → all_digits s ≡ true
    → value_from v s < 18446744073709551616
    → scan_uint v s ≡ value_from v s
scan_uint-value v [] d h = refl
scan_uint-value v (c ∷ s) d h =
    let v' = v * 10 + (c - b'0') in
    let d' : all_digits s ≡ true = ground (arith, d) in
    ground (arith, d, h, value_from-le v' s, scan_uint-value v' s d' h)

number_digits :
    (c : ℕ) (s : Text)
    → all_digits (c ∷ s) ≡ true
    → value_from 0 (c ∷ s) < 9223372036854775808
    → number (c ∷ s) ≡ pos (value_from 0 (c ∷ s))
unfolding number
number_digits c s d h =
    let e = scan_uint-value 0 (c ∷ s) d (omega (arith, h)) in
    let no_minus : (c == b'-') ≡ false = ground (arith, d) in
    let no_plus : (c == b'+') ≡ false = ground (arith, d) in
    rw (no_minus, no_plus) (ap clamped e ∙ ground (arith, h))

number-print_decimal : (n : ℕ) → n < 9223372036854775808 → number (print_decimal n) ≡ pos n
number-print_decimal n h =
    let (c, s, e) = print_decimal-cons n in
    let v : value_from 0 (c ∷ s) ≡ n = ap (value_from 0) (sym e) ∙ value-print_decimal n in
    let d : all_digits (c ∷ s) ≡ true = ap all_digits (sym e) ∙ all_digits-print_decimal n in
    ap number e ∙ number_digits c s d (omega (arith, h, v)) ∙ ap pos v

-- Below equal first parts, the rest decides.
later : (f g : ℕ → ℕ) → f 0 ≡ g 0 → Precedes (λ i. f (suc i)) (λ i. g (suc i)) → Precedes f g
later f g e (i, before, lt) = (suc i, agree, lt)
  where
    agree : (j : ℕ) → j < suc i → f j ≡ g j
    agree zero h = e
    agree (suc j) h = before j (omega (arith, h))

rest-Ordered :
    (f g : ℕ → ℕ) (r : ℤ) → f 0 ≡ g 0 → Ordered (λ i. f (suc i)) (λ i. g (suc i)) r → Ordered f g r
rest-Ordered f g (pos zero) e h = agree
  where
    agree : (i : ℕ) → f i ≡ g i
    agree zero = e
    agree (suc i) = h i
rest-Ordered f g (pos (suc zero)) e h = later g f (sym e) h
rest-Ordered f g (pos (suc (suc n))) e h = h
rest-Ordered f g (negsuc zero) e h = later f g e h
rest-Ordered f g (negsuc (suc n)) e h = h

decided-Ordered :
    (f g : ℕ → ℕ) (a b : ℤ) (r : ℤ)
    → a ≡ pos (f 0)
    → b ≡ pos (g 0)
    → Ordered (λ i. f (suc i)) (λ i. g (suc i)) r
    → Ordered f g (decided a b r)
decided-Ordered f g a b r x y h =
    subst (λ z. Ordered f g (decided z b r)) (sym x)
      (subst (λ z. Ordered f g (decided (pos (f 0)) z r)) (sym y)
        (elim (Bool-cases (ltb (g 0) (f 0))) [
          | inl more ↦ rw more (0, (λ j n. absurd (omega (arith, n))), ground (arith, more))
          | inr same ↦ elim (Bool-cases (ltb (f 0) (g 0))) [
            | inl fewer ↦
                rw (same, fewer) (0, (λ j n. absurd (omega (arith, n))), ground (arith, fewer))
            | inr same' ↦ rw (same, same') (rest-Ordered f g r (ground (arith, same, same')) h)
          ]
        ]))

compare_tabs-Ordered :
    (ns ms : List ℕ)
    → AreInts ns
    → AreInts ms
    → Ordered (part ns) (part ms) (compare_tabs (map print_decimal ns) (map print_decimal ms))
unfolding compare_tabs
compare_tabs-Ordered [] [] x y = λ i. refl
compare_tabs-Ordered (n ∷ ns) [] x y =
    decided-Ordered (part (n ∷ ns)) (part []) _ _ _ (number-print_decimal n x.0) refl
      (compare_tabs-Ordered ns [] x.1 tt)
compare_tabs-Ordered [] (m ∷ ms) x y =
    decided-Ordered (part []) (part (m ∷ ms)) _ _ _ refl (number-print_decimal m y.0)
      (compare_tabs-Ordered [] ms tt y.1)
compare_tabs-Ordered (n ∷ ns) (m ∷ ms) x y =
    decided-Ordered (part (n ∷ ns)) (part (m ∷ ms)) _ _ _ (number-print_decimal n x.0)
      (number-print_decimal m y.0) (compare_tabs-Ordered ns ms x.1 y.1)

print_decimal-AreFree : (ns : List ℕ) → AreFree b'.' (map print_decimal ns)
print_decimal-AreFree [] = tt
print_decimal-AreFree (n ∷ ns) = (
  digits-IsFree b'.' (print_decimal n) refl (all_digits-print_decimal n),
  print_decimal-AreFree ns,
)

split-written_version :
    (n : ℕ) (ns : List ℕ) → split b'.' (written_version n ns) ≡ map print_decimal (n ∷ ns)
split-written_version n ns =
    split-join b'.' (print_decimal n) (map print_decimal ns) (print_decimal-AreFree (n ∷ ns))

-- For versions written in decimal, of one or more numbers below 2^63 with dots between them: the
-- comparison is 0 exactly if the numbers are the same at every position, -1 if the first position where
-- they differ holds the smaller number in the first version, and 1 if it does in the second, where a
-- version counts as 0 at the positions that it does not have.
pub compare_to-Ordered :
    (n m : ℕ) (ns ms : List ℕ)
    → AreInts (n ∷ ns)
    → AreInts (m ∷ ms)
    → Ordered
        (part (n ∷ ns))
        (part (m ∷ ms))
        (compare_to (written_version n ns) (written_version m ms))
unfolding compare_to
compare_to-Ordered n m ns ms x y =
    subst
      (λ l.
        Ordered (part (n ∷ ns)) (part (m ∷ ms))
          (compare_tabs l (split b'.' (written_version m ms))))
      (sym (split-written_version n ns))
      (subst
        (λ l. Ordered (part (n ∷ ns)) (part (m ∷ ms)) (compare_tabs (map print_decimal (n ∷ ns)) l))
        (sym (split-written_version m ms)) (compare_tabs-Ordered (n ∷ ns) (m ∷ ms) x y))
