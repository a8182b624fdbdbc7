-- ===== src/Config/Version/Tests.antt =====
-- Versions of the remote API.
use docker.Common.{◌≡◌, refl, true, [], ◌∷◌, ◌++◌, Text, codes, arith}
use docker.Common.Int.{pos}
use docker.Common.Strings.Split.{split}
use docker.Config.Version.{number, compare_tabs, compare_to, less_than}
use docker.Config.Version.Order.{part, Ordered, written_version, compare_to-Ordered}

by_number : less_than (codes "1.9") (codes "1.14") ≡ true
unfolding compare_to compare_tabs number split
by_number = refl

missing_part : compare_to (codes "1.14") (codes "1.14.0") ≡ pos 0
unfolding compare_to compare_tabs number split
missing_part = refl

abbrev nines : Text
nines = codes "99999999999999999999"

-- Digits that are out of range end the number before the character that is none.
out_of_range : less_than (codes "1.0") (nines ++ codes "x") ≡ true
unfolding compare_to compare_tabs number split
out_of_range = refl

no_number : compare_to (codes "1.9x") (codes "1") ≡ pos 0
unfolding compare_to compare_tabs number split
no_number = refl

compare_to-Ordered_example :
    Ordered
      (part (1 ∷ 9 ∷ []))
      (part (1 ∷ 14 ∷ 2 ∷ []))
      (compare_to (written_version 1 (9 ∷ [])) (written_version 1 (14 ∷ 2 ∷ [])))
compare_to-Ordered_example =
    compare_to-Ordered 1 1 (9 ∷ []) (14 ∷ 2 ∷ []) (omega arith, (omega arith, tt))
      (omega arith, (omega arith, (omega arith, tt)))
