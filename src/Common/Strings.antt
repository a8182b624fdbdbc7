-- ===== src/Common/Strings.antt =====
-- The functions of Go's `strings`, `strconv` and `fmt` that the sources use, on texts of bytes.
pub mod Split
pub mod Decimal
use docker.Common.Tests.{leb, ltb, if◌then◌else◌}
use docker.Common.Equality.{Text, ◌==◌, nat_eq, text_eq}
use Prim.Native.Nat.{ℕ, zero, suc, ◌+◌, ◌-◌}
use mathlib.Core.Bool.{Bool, true, false, ◌&&◌, ◌||◌}
use mathlib.Core.Option.{Option, none, some}
use mathlib.Core.List.{List, [], ◌∷◌, ◌++◌, map, reverse}

-- strings.HasPrefix(s, p)
abbrev pub has_prefix : Text → Text → Bool
has_prefix s [] = true
has_prefix [] (b ∷ p) = false
has_prefix (a ∷ s) (b ∷ p) = a == b && has_prefix s p

-- s[len(p):], where s has the prefix p
abbrev pub drop_prefix : Text → Text → Text
drop_prefix s [] = s
drop_prefix [] (b ∷ p) = []
drop_prefix (a ∷ s) (b ∷ p) = drop_prefix s p

-- strings.TrimPrefix(s, p)
abbrev pub trim_prefix : Text → Text → Text
trim_prefix s p = if has_prefix s p then drop_prefix s p else s

-- strings.Contains(s, p)
unfoldable pub includes : Text → Text → Bool
includes [] p = has_prefix [] p
includes (a ∷ s) p = has_prefix (a ∷ s) p || includes s p

-- strings.Contains(s, string(b)) for one byte
unfoldable pub has_byte : ℕ → Text → Bool
has_byte b [] = false
has_byte b (a ∷ s) = a == b || has_byte b s

-- unicode.IsSpace by its number of bytes in UTF-8: one byte, two (U+0085 and U+00A0), or three (U+1680,
-- U+2000 to U+200A, U+2028, U+2029, U+202F, U+205F and U+3000).
abbrev pub is_space : ℕ → Bool
is_space c = c == 32 || (leb 9 c && leb c 13)

abbrev pub is_space2 : ℕ → ℕ → Bool
is_space2 a b = a == 194 && (b == 133 || b == 160)

abbrev pub is_space3 : ℕ → ℕ → ℕ → Bool
is_space3 a b c =
    (a == 225 && (b == 154 && c == 128))
    || ((a == 226
          && (b == 128 && ((leb 128 c && leb c 138) || (c == 168 || (c == 169 || c == 175)))))
        || ((a == 226 && (b == 129 && c == 159)) || (a == 227 && (b == 128 && c == 128))))

-- The number of bytes of the white space in front, and at the end of a text that is given reversed.
abbrev pub first_width : Text → ℕ
first_width [] = 0
first_width (a ∷ []) = if is_space a then 1 else 0
first_width (a ∷ b ∷ []) = if is_space a then 1 else if is_space2 a b then 2 else 0
first_width (a ∷ b ∷ c ∷ s) =
    if is_space a then 1 else if is_space2 a b then 2 else if is_space3 a b c then 3 else 0

abbrev pub last_width : Text → ℕ
last_width [] = 0
last_width (a ∷ []) = if is_space a then 1 else 0
last_width (a ∷ b ∷ []) = if is_space a then 1 else if is_space2 b a then 2 else 0
last_width (a ∷ b ∷ c ∷ s) =
    if is_space a then 1 else if is_space2 b a then 2 else if is_space3 c b a then 3 else 0

-- The text behind `n` bytes and the white space that follows them.
unfoldable pub trim_with : (Text → ℕ) → ℕ → Text → Text
trim_with width n [] = []
trim_with width (suc n) (c ∷ s) = trim_with width n s
trim_with width zero (c ∷ s) = elim (width (c ∷ s)) [ zero ↦ c ∷ s | suc n ↦ trim_with width n s ]

-- strings.TrimSpace
unfoldable pub trim_space : Text → Text
unfolding trim_with
trim_space s = reverse (trim_with last_width 0 (reverse (trim_with first_width 0 s)))

-- strings.ToUpper and strings.ToLower on ASCII
abbrev pub upper_byte : ℕ → ℕ
upper_byte c = if leb b'a' c && leb c b'z' then c - 32 else c

abbrev pub lower_byte : ℕ → ℕ
lower_byte c = if leb b'A' c && leb c b'Z' then c + 32 else c

unfoldable pub to_upper : Text → Text
to_upper = map upper_byte

unfoldable pub to_lower : Text → Text
to_lower = map lower_byte
