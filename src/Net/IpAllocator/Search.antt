-- ===== src/Net/IpAllocator/Search.antt =====
-- The search of `getNextIP` for a free position.
use native.Mathlib.Decide.{ℕ_discrete, dec_lt}
use native.Mathlib.Nat.{mod-eq_of_lt, mod_self, mod-lt, mod-mod}
use docker.Common.{
  ℕ, zero, suc, ◌+◌, ◌%◌, ◌≤◌, ◌<◌, ◌≡◌, ◌≢◌, ◌⊎◌, inl, inr, refl, Bool, true, false, ◌||◌, Option,
  none, some, List, arith, Bool-cases, nat_eq,
}
use docker.Common.Words.{i32_sign, add32, rem32}
use docker.Common.Maps.{contains}
use docker.Net.IpAllocator.{scan_positions}

module _ (max : ℕ) (small : max < i32_sign) (reserved : ℕ → Bool) (p : List ℕ) where
  next_within : (at : ℕ) → at < max → add32 (rem32 at max) 1 ≡ at + 1
  next_within at h = ground (arith, mod-eq_of_lt h)

  next_wrapped : 0 < max → add32 (rem32 max max) 1 ≡ 1
  next_wrapped h = ground (arith, mod_self max)

  -- A round looks at the next position: it is not free, or it ends the search.
  abbrev pub is_busy : ℕ → Bool
  is_busy t = reserved t || contains t p

  -- Where a search of `i` rounds from `at` has been: the rounds wrap after `max`.
  abbrev Passed : ℕ → ℕ → ℕ → Type 0
  Passed i at t = ((at < t) × (t ≤ max) × (t ≤ at + i)) ⊎ ((1 ≤ t) × (t + max ≤ at + i))

  -- A search ends at a position that is not busy, or all that it passed are busy.
  abbrev pub Scanned : (ℕ → Type 0) → Option ℕ → Type 0
  Scanned In none = (t : ℕ) → In t → is_busy t ≡ true
  Scanned In (some t) = (1 ≤ t) × (t ≤ max) × (is_busy t ≡ false)

  scan_step_busy :
      (i at t : ℕ)
      → add32 (rem32 at max) 1 ≡ t
      → is_busy t ≡ true
      → scan_positions (suc i) max reserved p at ≡ scan_positions i max reserved p t
  unfolding scan_positions
  scan_step_busy i at t e busy = ground arith

  scan_step_free :
      (i at t : ℕ)
      → add32 (rem32 at max) 1 ≡ t
      → is_busy t ≡ false
      → scan_positions (suc i) max reserved p at ≡ some t
  unfolding scan_positions
  scan_step_free i at t e free = ground arith

  Scanned-busy :
      (In In' : ℕ → Type 0) (r : Option ℕ) (at : ℕ)
      → is_busy at ≡ true
      → ((t : ℕ) → In' t → t ≢ at → In t)
      → Scanned In r
      → Scanned In' r
  Scanned-busy In In' none at busy back h =
      λ t i. elim (ℕ_discrete t at) [ yes e ↦ rw e busy | no n ↦ h t (back t i n) ]
  Scanned-busy In In' (some t) at busy back h = h

  Scanned-weaken :
      (In In' : ℕ → Type 0) (r : Option ℕ) → ((t : ℕ) → In' t → In t) → Scanned In r → Scanned In' r
  Scanned-weaken In In' none back h = λ t i. h t (back t i)
  Scanned-weaken In In' (some t) back h = h

  scan_none : (i at : ℕ) → i ≡ 0 → scan_positions i max reserved p at ≡ none
  unfolding scan_positions
  scan_none zero at e = refl
  scan_none (suc i) at e = absurd (omega arith)

  scan_step :
      (i at t : ℕ)
      → add32 (rem32 at max) 1 ≡ t
      → 1 ≤ t
      → t ≤ max
      → ((u : ℕ) → Passed (suc i) at u → u ≢ t → Passed i t u)
      → Scanned (Passed i t) (scan_positions i max reserved p t)
      → Scanned (Passed (suc i) at) (scan_positions (suc i) max reserved p at)
  scan_step i at t e lo hi back rest = elim (Bool-cases (is_busy t)) [
    | inl busy ↦ rw (scan_step_busy i at t e busy) (Scanned-busy _ _ _ t busy back rest)
    | inr free ↦ rw (scan_step_free i at t e free) (lo, hi, free)
  ]

  scan-Scanned :
      (i at : ℕ)
      → i ≤ max
      → at ≤ max
      → 0 < max
      → Scanned (Passed i at) (scan_positions i max reserved p at)
  scan-Scanned zero at a b c = unfold scan_positions in λ t i. absurd (omega arith)
  scan-Scanned (suc i) at a b c = elim (dec_lt at max) [
    | yes h ↦
        scan_step i at (at + 1) (next_within at h) (omega arith) (omega arith)
          (λ u q n. omega arith) (scan-Scanned i (at + 1) (omega arith) (omega arith) c)
    | no h ↦
        scan_step i at 1 (rw (at_max at b h) (next_wrapped c)) (omega arith) (omega arith)
          (λ u q n. omega arith) (scan-Scanned i 1 (omega arith) (omega arith) c)
  ]
    where
      at_max : (at : ℕ) → at ≤ max → ¬ (at < max) → at ≡ max
      at_max at b h = omega arith

  next-mod :
      (at : ℕ) → at < i32_sign → 0 < max → add32 (rem32 at max) 1 ≡ add32 (rem32 (at % max) max) 1
  next-mod at h c = ground (arith, mod-mod at max, mod-lt at c)

  -- The search starts from the remainder of the last position.
  scan-mod :
      (i at : ℕ)
      → at < i32_sign
      → 0 < max
      → scan_positions i max reserved p at ≡ scan_positions i max reserved p (at % max)
  unfolding scan_positions
  scan-mod zero at h c = refl
  scan-mod (suc i) at h c = rw (next-mod at h c)

  -- A full search, from a position that is not negative: a position of the subnet that is not busy,
  -- or every one is busy.
  pub full-Scanned :
      (at : ℕ)
      → at < i32_sign
      → Scanned (λ t. (1 ≤ t) × (t ≤ max)) (scan_positions max max reserved p at)
  full-Scanned at h = elim (dec_lt 0 max) [
    | yes c ↦ rw (scan-mod max at h c) (
        Scanned-weaken _ _ _ (λ t i. omega (arith, mod-lt at c))
          (scan-Scanned max (at % max) (omega arith) (omega (arith, mod-lt at c)) c))
    | no n ↦ rw (scan_none max at (omega arith)) (λ t i. absurd (omega arith))
  ]
