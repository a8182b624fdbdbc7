-- ===== src/Common/Strings/Split.antt =====
-- strings.Split and strings.Join with a separator of one byte, and strings.LastIndex.
use docker.Common.Tests.{if◌then◌else◌, Bool-cases}
use docker.Common.Equality.{Text, ◌==◌, ==_iff, nat_eq}
use Prim.Native.Nat.{ℕ}
use mathlib.Core.Path.{◌≡◌, ◌∙◌, refl, ap}
use mathlib.Core.Logic.{inl, inr}
use mathlib.Core.Bool.{false}
use mathlib.Core.Option.{Option, none, some}
use mathlib.Core.List.{List, [], ◌∷◌, ◌++◌}
use native.Mathlib.Omega.{arith}

abbrev onto_first : ℕ → List Text → List Text
onto_first c [] = (c ∷ []) ∷ []
onto_first c (w ∷ ws) = (c ∷ w) ∷ ws

unfoldable pub split : ℕ → Text → List Text
split sep [] = [] ∷ []
split sep (c ∷ s) = let rest = split sep s in if c == sep then [] ∷ rest else onto_first c rest

unfoldable pub join : ℕ → List Text → Text
join sep [] = []
join sep (w ∷ []) = w
join sep (w ∷ v ∷ ws) = w ++ (sep ∷ join sep (v ∷ ws))

-- The text up to the last separator, and the text behind it.
unfoldable pub cut_last : ℕ → Text → Option (Text × Text)
cut_last sep [] = none
cut_last sep (c ∷ s) = elim (cut_last sep s) [
  | none ↦ if c == sep then some ([], s) else none
  | some (a, b) ↦ some (c ∷ a, b)
]

-- A text without the separator.
abbrev pub IsFree : ℕ → Text → Type 0
IsFree sep [] = Unit {0}
IsFree sep (c ∷ s) = ((c == sep) ≡ false) × IsFree sep s

pub split-append :
    (sep : ℕ) (w s : Text) → IsFree sep w → split sep (w ++ (sep ∷ s)) ≡ w ∷ split sep s
unfolding split
split-append sep [] s f = ground (arith, ==_iff sep sep)
split-append sep (c ∷ w) s f = ground (arith, split-append sep w s f.1)

pub split_one : (sep : ℕ) (w : Text) → IsFree sep w → split sep w ≡ w ∷ []
unfolding split
split_one sep [] f = refl
split_one sep (c ∷ w) f = ground (arith, split_one sep w f.1)

pub cut_last-none : (sep : ℕ) (w : Text) → IsFree sep w → cut_last sep w ≡ none
unfolding cut_last
cut_last-none sep [] f = refl
cut_last-none sep (c ∷ w) f = ground (arith, cut_last-none sep w f.1)

pub cut_last-append :
    (sep : ℕ) (a w : Text) → IsFree sep w → cut_last sep (a ++ (sep ∷ w)) ≡ some (a, w)
unfolding cut_last
cut_last-append sep [] w f = ground (arith, cut_last-none sep w f, ==_iff sep sep)
cut_last-append sep (c ∷ a) w f = ground (arith, cut_last-append sep a w f)

-- What `cut_last` returns, put together again, is the text, with no separator behind the cut.
abbrev pub Cut : ℕ → Text → Option (Text × Text) → Type 0
Cut sep s none = IsFree sep s
Cut sep s (some (a, b)) = (s ≡ a ++ (sep ∷ b)) × IsFree sep b

pub cut_last-Cut : (sep : ℕ) (s : Text) → Cut sep s (cut_last sep s)
unfolding cut_last
cut_last-Cut sep [] = tt
cut_last-Cut sep (c ∷ s) = extend (cut_last sep s) (cut_last-Cut sep s)
  where
    extend :
        (r : Option (Text × Text))
        → Cut sep s r
        → Cut sep (c ∷ s) (elim r [
          | none ↦ if c == sep then some ([], s) else none
          | some (a, b) ↦ some (c ∷ a, b)
        ])
    extend none h = elim (Bool-cases (c == sep)) [
      | inl e ↦ rw e (ground (arith, ==_iff c sep), h)
      | inr n ↦ rw n (n, h)
    ]
    extend (some (a, b)) h = (ap (◌∷◌ c) h.0, h.1)

-- There is always a first part.
pub split-cons : (sep : ℕ) (s : Text) → (w : Text) × (ws : List Text) × (split sep s ≡ w ∷ ws)
unfolding split
split-cons sep [] = ([], [], refl)
split-cons sep (c ∷ s) =
    let (w, ws, e) = split-cons sep s in
    elim (Bool-cases (c == sep)) [
      | inl at ↦ ([], split sep s, rw at refl)
      | inr n ↦ (c ∷ w, ws, rw (n, e) refl)
    ]

abbrev pub AreFree : ℕ → List Text → Type 0
AreFree sep [] = Unit {0}
AreFree sep (w ∷ ws) = IsFree sep w × AreFree sep ws

pub split-join :
    (sep : ℕ) (w : Text) (ws : List Text)
    → AreFree sep (w ∷ ws)
    → split sep (join sep (w ∷ ws)) ≡ w ∷ ws
unfolding join
split-join sep w [] f = split_one sep w f.0
split-join sep w (v ∷ ws) f =
    split-append sep w (join sep (v ∷ ws)) f.0 ∙ ap (λ l. w ∷ l) (split-join sep v ws f.1)
