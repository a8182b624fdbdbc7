-- ===== src/Config/Parsers/Laws.antt =====
-- References are read as they are written, and keep every byte.
use docker.Common.{
  ℕ, ◌≡◌, refl, true, false, none, some, inl, inr, ◌⊎◌, [], ◌∷◌, ◌++◌, Text, arith, Bool-cases,
  Option-cases, ==_iff, nat_eq,
}
use docker.Common.Results.{ok, err}
use docker.Common.Strings.{has_byte, trim_space}
use docker.Common.Strings.Split.{IsFree, Cut, cut_last, cut_last-Cut, cut_last-append}
use docker.Config.Parsers.{no_key_value, parse_repository_tag, cut_first, parse_key_value_opt}

-- The repository and the tag, put together, are the text, and no slash is in the tag.
abbrev pub Rejoined : Text → Text × Text → Type 0
Rejoined repos (name, tag) =
    ((name ≡ repos) × (tag ≡ []))
    ⊎ ((repos ≡ name ++ (b':' ∷ tag)) × IsFree b':' tag × (has_byte b'/' tag ≡ false))

parse_repository_tag-none :
    (repos : Text) → cut_last b':' repos ≡ none → parse_repository_tag repos ≡ (repos, [])
unfolding parse_repository_tag
parse_repository_tag-none repos e = rw (e, parse_repository_tag) refl

parse_repository_tag-slash :
    (repos name tag : Text)
    → cut_last b':' repos ≡ some (name, tag)
    → has_byte b'/' tag ≡ true
    → parse_repository_tag repos ≡ (repos, [])
unfolding parse_repository_tag
parse_repository_tag-slash repos name tag e slash = rw (e, slash, parse_repository_tag) refl

parse_repository_tag-tag :
    (repos name tag : Text)
    → cut_last b':' repos ≡ some (name, tag)
    → has_byte b'/' tag ≡ false
    → parse_repository_tag repos ≡ (name, tag)
unfolding parse_repository_tag
parse_repository_tag-tag repos name tag e free = rw (e, free, parse_repository_tag) refl

-- For every text, ParseRepositoryTag returns either the text itself with an empty tag, or a
-- repository and a tag that make up the text with a colon between them, where the tag has no colon
-- and no slash.
parse_repository_tag-Rejoined : (repos : Text) → Rejoined repos (parse_repository_tag repos)
parse_repository_tag-Rejoined repos = elim (Option-cases (cut_last b':' repos)) [
  | inl e ↦ rw (parse_repository_tag-none repos e) (inl (refl, refl))
  | inr ((name, tag), e) ↦
      let cut : Cut b':' repos (some (name, tag)) = rw e at (cut_last-Cut b':' repos) in
      elim (Bool-cases (has_byte b'/' tag)) [
        | inl slash ↦ rw (parse_repository_tag-slash repos name tag e slash) (inl (refl, refl))
        | inr free ↦ rw (parse_repository_tag-tag repos name tag e free) (inr (cut.0, cut.1, free))
      ]
]

-- Whatever the name of the repository (a host with a port, too), a tag with no colon and no slash
-- that is appended to it behind a colon is read back as it is.
parse_repository_tag-append :
    (name tag : Text)
    → IsFree b':' tag
    → has_byte b'/' tag ≡ false
    → parse_repository_tag (name ++ (b':' ∷ tag)) ≡ (name, tag)
parse_repository_tag-append name tag f free =
    parse_repository_tag-tag (name ++ (b':' ∷ tag)) name tag (cut_last-append b':' name tag f) free

pub cut_first-append :
    (sep : ℕ) (a s : Text) → IsFree sep a → cut_first sep (a ++ (sep ∷ s)) ≡ some (a, s)
unfolding cut_first
cut_first-append sep [] s f = elim (Option-cases (cut_first sep s)) [
  | inl e ↦ rw e (ground (arith, ==_iff sep sep))
  | inr (p, e) ↦ rw e (ground (arith, ==_iff sep sep))
]
cut_first-append sep (c ∷ a) s f = ground (arith, cut_first-append sep a s f.1)

cut_first-none : (sep : ℕ) (a : Text) → IsFree sep a → cut_first sep a ≡ none
unfolding cut_first
cut_first-none sep [] f = refl
cut_first-none sep (c ∷ a) f = ground (arith, cut_first-none sep a f.1)

-- An option is cut at its first equals sign, with the value free to hold more of them, and both
-- sides lose the blanks around them; an option with no equals sign is refused.
parse_key_value_opt-append :
    (key value : Text)
    → IsFree b'=' key
    → (parse_key_value_opt (key ++ (b'=' ∷ value)) ≡ ok (trim_space key, trim_space value))
      × (parse_key_value_opt key ≡ err (no_key_value key))
unfolding parse_key_value_opt
parse_key_value_opt-append key value f = (
  rw (cut_first-append b'=' key value f, parse_key_value_opt) refl,
  rw (cut_first-none b'=' key f, parse_key_value_opt) refl,
)
