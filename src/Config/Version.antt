-- ===== src/Config/Version.antt =====
-- Versions of the remote API and of the kernel, as texts with dots: pkg/version/version.go.
pub mod Order
mod Tests
use docker.Common.{
  ℕ, zero, suc, ◌+◌, ◌-◌, ◌*◌, Bool, true, false, ◌&&◌, not, List, [], ◌∷◌, Text, ltb, ◌==◌,
  if◌then◌else◌, nat_eq,
}
use docker.Common.Int.{ℤ, pos, negsuc}
use docker.Common.Strings.Decimal.{is_digit}
use docker.Common.Strings.Split.{split}

abbrev pub less : ℤ → ℤ → Bool
less (pos m) (pos n) = ltb m n
less (pos m) (negsuc n) = false
less (negsuc m) (pos n) = true
less (negsuc m) (negsuc n) = ltb n m

-- strconv.ParseUint(s, 10, 64), besides its error: it stops with 0 at the first character that is no
-- digit, and with the greatest number where the digits so far are out of range.
abbrev pub scan_uint : ℕ → Text → ℕ
scan_uint v [] = v
scan_uint v (c ∷ s) =
    let v' = v * 10 + (c - b'0') in
    let rest = scan_uint v' s in
    if is_digit c then (if ltb v' 18446744073709551616 then rest else 18446744073709551615) else 0

-- The nearest number of 64 bits with a sign.
abbrev pub clamped : ℕ → ℤ
clamped n = pos (if ltb n 9223372036854775808 then n else 9223372036854775807)

abbrev pub clamped_negated : ℕ → ℤ
clamped_negated zero = pos 0
clamped_negated (suc n) = negsuc (if ltb n 9223372036854775808 then n else 9223372036854775807)

-- strconv.Atoi, whose error is dropped: a part that is no number counts as 0, and one out of range as
-- the nearest number.
unfoldable pub number : Text → ℤ
number [] = pos 0
number (c ∷ s) =
    if c == b'-'
    then clamped_negated (scan_uint 0 s)
    else clamped (scan_uint 0 (if c == b'+' then s else c ∷ s))

abbrev pub decided : ℤ → ℤ → ℤ → ℤ
decided me other rest = if less other me then pos 1 else if less me other then negsuc 0 else rest

-- A part that is missing counts as 0.
unfoldable pub compare_tabs : List Text → List Text → ℤ
compare_tabs [] [] = pos 0
compare_tabs (a ∷ me) [] = decided (number a) (pos 0) (compare_tabs me [])
compare_tabs [] (b ∷ other) = decided (pos 0) (number b) (compare_tabs [] other)
compare_tabs (a ∷ me) (b ∷ other) = decided (number a) (number b) (compare_tabs me other)

unfoldable pub compare_to : Text → Text → ℤ
compare_to me other = compare_tabs (split b'.' me) (split b'.' other)

abbrev pub less_than : Text → Text → Bool
less_than me other = less (compare_to me other) (pos 0)

abbrev pub less_than_or_equal_to : Text → Text → Bool
less_than_or_equal_to me other = not (less (pos 0) (compare_to me other))

abbrev pub greater_than : Text → Text → Bool
greater_than me other = less (pos 0) (compare_to me other)

abbrev pub greater_than_or_equal_to : Text → Text → Bool
greater_than_or_equal_to me other = not (less (compare_to me other) (pos 0))

abbrev pub equal : Text → Text → Bool
equal me other =
    not (less (compare_to me other) (pos 0)) && not (less (pos 0) (compare_to me other))
