-- ===== src/Images/TagStore/Repositories.antt =====
-- What setting and deleting a tag do to the images that names stand for.
use docker.Common.{
  ◌≡◌, refl, ◌∙◌, Bool, true, ◌&&◌, Option, none, some, inl, inr, [], ◌∷◌, Text, arith, length,
  Bool-cases, Option-cases, ◌==◌, ==_iff, if◌then◌else◌, text_eq, nat_eq,
}
use docker.Common.Results.{Result, ok, err}
use docker.Common.Maps.{lookup, insert, erase, lookup-insert, lookup-erase}
use docker.Images.TagStore.{
  Repository, Repositories, decode_into, TagError, delete_tag, delete_in, set_in,
}

abbrev pub tag_in : Text → Option Repository → Option Text
tag_in tag none = none
tag_in tag (some r) = lookup tag r

-- The image that a repository and a tag name.
abbrev pub tag_of : Text → Text → Repositories → Option Text
tag_of name tag m = tag_in tag (lookup name m)

pub lookup-decode_into :
    (name : Text) (file m : Repositories)
    → lookup name (decode_into file m)
      ≡ elim (lookup name file) [ none ↦ lookup name m | some r ↦ some r ]
unfolding decode_into lookup
lookup-decode_into name [] m = refl
lookup-decode_into name ((k, r) ∷ file) m =
    ground (arith, lookup-insert k name r (decode_into file m), lookup-decode_into name file m)

-- Setting a tag changes the one name.
pub tag_of-set_in :
    (repo tag id name t : Text) (m : Repositories)
    → tag_of name t (set_in repo tag id m)
      ≡ (if repo == name && tag == t then some id else tag_of name t m)
unfolding set_in lookup
tag_of-set_in repo tag id name t m = elim (Option-cases (lookup repo m)) [
  | inl e ↦
      rw (e, set_in) (ground (arith, lookup-insert repo name ((tag, id) ∷ []) m, ==_iff repo name))
  | inr (r, e) ↦
      rw (e, set_in)
        (ground (
          arith,
          lookup-insert repo name (insert tag id r) m,
          lookup-insert tag t id r,
          ==_iff repo name,
        ))
]

no_tags : (r : Repository) (t : Text) → (length r == 0) ≡ true → lookup t r ≡ none
unfolding lookup
no_tags [] t e = refl
no_tags ((k, v) ∷ r) t e = absurd (ground arith)

tag_of-delete_tag :
    (repo tag name t : Text) (r : Repository) (m : Repositories)
    → lookup repo m ≡ some r
    → tag_of name t (delete_tag repo tag r m)
      ≡ (if repo == name && tag == t then none else tag_of name t m)
unfolding delete_tag
tag_of-delete_tag repo tag name t r m e = elim (Bool-cases (length (erase tag r) == 0)) [
  | inl empty ↦
      rw (empty, delete_tag)
        (ground (
          arith,
          lookup-erase repo name m,
          lookup-erase tag t r,
          no_tags (erase tag r) t empty,
          ==_iff repo name,
        ))
  | inr more ↦
      rw (more, delete_tag)
        (ground
          (arith, lookup-insert repo name (erase tag r) m, lookup-erase tag t r, ==_iff repo name))
]

-- Whether a deletion reaches a tag: with no tag given, it reaches all.
abbrev pub reaches : Text → Text → Bool
reaches tag t = if tag == [] then true else tag == t

-- What a deletion leaves: where it fails, the name stood for nothing.
abbrev pub Deleted :
    Text → Text → Text → Text → Repositories → Result TagError Repositories → Type 0
Deleted repo tag name t m (ok m') =
    tag_of name t m' ≡ (if repo == name && reaches tag t then none else tag_of name t m)
Deleted repo tag name t m (err e) =
    tag_of name t m ≡ (if repo == name && reaches tag t then none else tag_of name t m)

pub delete_in-Deleted :
    (repo tag name t : Text) (m : Repositories) → Deleted repo tag name t m (delete_in repo tag m)
unfolding delete_in
delete_in-Deleted repo tag name t m = elim (Option-cases (lookup repo m)) [
  | inl e ↦ rw (e, delete_in) (ground (arith, ==_iff repo name))
  | inr (r, e) ↦ elim (Bool-cases (tag == [])) [
    | inl all ↦ rw (e, all, delete_in) (ground (arith, lookup-erase repo name m))
    | inr one ↦ elim (Option-cases (lookup tag r)) [
      | inl missing ↦
          rw (e, one, missing, delete_in) (ground (arith, ==_iff repo name, ==_iff tag t))
      | inr (id, there) ↦
          rw (e, one, there, delete_in) (tag_of-delete_tag repo tag name t r m e ∙ ground arith)
    ]
  ]
]
