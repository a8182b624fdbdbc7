-- ===== src/Common/Strings/Decimal.antt =====
-- Decimal numbers: strconv.Itoa, strconv.ParseUint and strconv.Atoi.
use docker.Common.Tests.{if◌then◌else◌, ltb, leb, Bool-cases}
use docker.Common.Equality.{Text, nat_eq}
use docker.Common.Strings.Split.{IsFree}
use Prim.Native.Nat.{ℕ, zero, suc, ◌+◌, ◌-◌, ◌*◌, ◌/◌, ◌%◌, ◌<◌}
use mathlib.Core.Path.{◌≡◌, refl, ap, sym, ◌∙◌}
use mathlib.Core.Logic.{inl, inr}
use mathlib.Core.Bool.{Bool, true, false, ◌&&◌}
use mathlib.Core.Option.{Option, none, some}
use mathlib.Core.List.{[], ◌∷◌}
use native.Mathlib.Omega.{arith}

-- The digits of a number, before those already written. The fuel is more than the number.
print_digits : ℕ → ℕ → Text → Text
print_digits zero n done = done
print_digits (suc fuel) n done =
    let rest = print_digits fuel (n / 10) ((b'0' + n % 10) ∷ done) in
    if ltb n 10 then (b'0' + n) ∷ done else rest

-- strconv.Itoa of a number that is not negative
unfoldable pub print_decimal : ℕ → Text
unfolding print_digits
print_decimal n = print_digits (suc n) n []

abbrev pub is_digit : ℕ → Bool
is_digit c = leb b'0' c && leb c b'9'

-- The digits' value after `v`.
abbrev pub value_from : ℕ → Text → ℕ
value_from v [] = v
value_from v (c ∷ s) = value_from (v * 10 + (c - b'0')) s

abbrev pub all_digits : Text → Bool
all_digits [] = true
all_digits (c ∷ s) = is_digit c && all_digits s

-- strconv.ParseUint(s, 10, bits), with `limit` for 2 ^ bits: `none` is an error
unfoldable pub parse_uint : ℕ → Text → Option ℕ
parse_uint limit [] = none
parse_uint limit (c ∷ s) =
    if all_digits (c ∷ s) && ltb (value_from 0 (c ∷ s)) limit
    then some (value_from 0 (c ∷ s))
    else none

print_digits-value :
    (fuel n : ℕ) (done : Text)
    → n < fuel
    → value_from 0 (print_digits fuel n done) ≡ value_from n done
unfolding print_digits
print_digits-value zero n done h = absurd (omega arith)
print_digits-value (suc fuel) n done h = elim (Bool-cases (ltb n 10)) [
  | inl last ↦ rw last (ap (λ (v : ℕ). value_from v done) (omega arith))
  | inr more ↦ rw more (
      print_digits-value fuel (n / 10) ((b'0' + n % 10) ∷ done) (ground arith)
      ∙ ap (λ (v : ℕ). value_from v done) (omega arith))
]

print_digits-all_digits :
    (fuel n : ℕ) (done : Text)
    → n < fuel
    → all_digits done ≡ true
    → all_digits (print_digits fuel n done) ≡ true
unfolding print_digits
print_digits-all_digits zero n done h d = absurd (omega arith)
print_digits-all_digits (suc fuel) n done h d =
    ground (arith, print_digits-all_digits fuel (n / 10) ((b'0' + n % 10) ∷ done))

print_digits-cons :
    (fuel n : ℕ) (done : Text)
    → n < fuel
    → (c : ℕ) × (s : Text) × (print_digits fuel n done ≡ c ∷ s)
unfolding print_digits
print_digits-cons zero n done h = absurd (omega arith)
print_digits-cons (suc fuel) n done h = elim (Bool-cases (ltb n 10)) [
  | inl last ↦ (b'0' + n, done, rw last)
  | inr more ↦
      let (c, s, e) = print_digits-cons fuel (n / 10) ((b'0' + n % 10) ∷ done) (ground arith) in
      (c, s, rw more e)
]

pub value-print_decimal : (n : ℕ) → value_from 0 (print_decimal n) ≡ n
unfolding print_decimal
value-print_decimal n = print_digits-value (suc n) n [] (omega arith)

pub all_digits-print_decimal : (n : ℕ) → all_digits (print_decimal n) ≡ true
unfolding print_decimal
all_digits-print_decimal n = print_digits-all_digits (suc n) n [] (omega arith) refl

pub print_decimal_injective : (m n : ℕ) → print_decimal m ≡ print_decimal n → m ≡ n
print_decimal_injective m n e =
    sym (value-print_decimal m) ∙ ap (value_from 0) e ∙ value-print_decimal n

pub print_decimal-cons : (n : ℕ) → (c : ℕ) × (s : Text) × (print_decimal n ≡ c ∷ s)
unfolding print_decimal
print_decimal-cons n = print_digits-cons (suc n) n [] (omega arith)

parse_digits :
    (limit n c : ℕ) (s : Text)
    → n < limit
    → all_digits (c ∷ s) ≡ true
    → value_from 0 (c ∷ s) ≡ n
    → parse_uint limit (c ∷ s) ≡ some n
unfolding parse_uint
parse_digits limit n c s h d v = ground arith

pub parse_uint-print_decimal :
    (limit n : ℕ) → n < limit → parse_uint limit (print_decimal n) ≡ some n
unfolding parse_uint
parse_uint-print_decimal limit n h =
    let (c, s, e) = print_decimal-cons n in
    rw e (
      parse_digits limit n c s h (ap all_digits (sym e) ∙ all_digits-print_decimal n)
        (ap (value_from 0) (sym e) ∙ value-print_decimal n))

-- A number is free of what is no digit.
pub digits-IsFree : (sep : ℕ) (s : Text) → is_digit sep ≡ false → all_digits s ≡ true → IsFree sep s
digits-IsFree sep [] n d = tt
digits-IsFree sep (c ∷ s) n d = (ground arith, digits-IsFree sep s n (ground arith))
