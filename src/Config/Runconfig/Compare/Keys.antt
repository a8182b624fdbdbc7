-- ===== src/Config/Runconfig/Compare/Keys.antt =====
-- Sets of keys: that all keys of one are in the other, and that they have as many.
use docker.Common.{
  ◌≤◌, ◌<◌, ◌≡◌, refl, Bool, true, false, ◌&&◌, not, inl, inr, List, [], ◌∷◌, Text, length, arith,
  Bool-cases, ==_iff, ==_refl, nat_eq, text_eq,
}
use docker.Common.Maps.{contains, remove, contains-remove}
use docker.Config.Runconfig.Compare.{keys_within}

-- The keys of a Go map: none is there twice.
abbrev pub distinct : List Text → Bool
distinct [] = true
distinct (k ∷ ks) = not (contains k ks) && distinct ks

keys_within-contains :
    (ks s : List Text) (k : Text)
    → keys_within ks s ≡ true
    → contains k ks ≡ true
    → contains k s ≡ true
unfolding keys_within contains
keys_within-contains [] s k w c = absurd (ground arith)
keys_within-contains (j ∷ ks) s k w c = ground (arith, ==_iff j k, keys_within-contains ks s k)

keys_within-remove :
    (ks s : List Text) (k : Text)
    → keys_within ks s ≡ true
    → contains k ks ≡ false
    → keys_within ks (remove k s) ≡ true
unfolding keys_within contains
keys_within-remove [] s k w n = refl
keys_within-remove (j ∷ ks) s k w n =
    ground (arith, contains-remove k j s, ==_iff j k, ==_iff k j, keys_within-remove ks s k)

length-remove-le : (k : Text) (s : List Text) → length (remove k s) ≤ length s
unfolding remove
length-remove-le k [] = omega arith
length-remove-le k (j ∷ s) = ground (arith, length-remove-le k s)

length-remove : (k : Text) (s : List Text) → contains k s ≡ true → length (remove k s) < length s
unfolding remove contains
length-remove k [] c = absurd (ground (arith, c))
length-remove k (j ∷ s) c = ground (arith, length-remove-le k s, length-remove k s)

-- No more keys than those that they are among.
length-keys_within :
    (ks s : List Text) → distinct ks ≡ true → keys_within ks s ≡ true → length ks ≤ length s
unfolding keys_within
length-keys_within [] s d w = omega arith
length-keys_within (k ∷ ks) s d w =
    ground (arith, length-remove k s, keys_within-remove ks s k, length-keys_within ks (remove k s))

-- As many keys, all of them among the others, are the same keys.
pub same_keys :
    (ks s : List Text) (k : Text)
    → distinct ks ≡ true
    → keys_within ks s ≡ true
    → length ks ≡ length s
    → contains k ks ≡ contains k s
same_keys ks s k d w n = elim (Bool-cases (contains k ks)) [
  | inl here ↦ ground (arith, here, keys_within-contains ks s k w here)
  | inr gone ↦ elim (Bool-cases (contains k s)) [
    | inr e ↦ ground (arith, gone, e)
    | inl e ↦ absurd (
        omega (
          arith,
          n,
          length-remove k s e,
          length-keys_within ks (remove k s) d (keys_within-remove ks s k w gone),
        ))
  ]
]

within-each :
    (ks s : List Text)
    → ((k : Text) → contains k ks ≡ true → contains k s ≡ true)
    → keys_within ks s ≡ true
unfolding keys_within contains
within-each [] s h = refl
within-each (j ∷ ks) s h =
    let here : contains j s ≡ true = h j (ground (arith, ==_refl j)) in
    let rest = within-each ks s (λ k c. h k (ground (arith, c))) in ground (arith, here, rest)

pub keys_within_same :
    (ks s : List Text) → ((k : Text) → contains k ks ≡ contains k s) → keys_within ks s ≡ true
keys_within_same ks s h = within-each ks s (λ k c. ground (arith, c, h k))

pub length_same :
    (ks s : List Text)
    → distinct ks ≡ true
    → distinct s ≡ true
    → ((k : Text) → contains k ks ≡ contains k s)
    → length ks ≡ length s
length_same ks s d d' h = omega (
  arith,
  length-keys_within ks s d (keys_within_same ks s h),
  length-keys_within s ks d' (within-each s ks (λ k c. ground (arith, c, h k))),
)
