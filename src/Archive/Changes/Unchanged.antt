-- ===== src/Archive/Changes/Unchanged.antt =====
-- No changes are reported of a tree to itself, and only of trees that are alike.
use docker.Common.{
  ◌≡◌, ◌⊎◌, ◌∙◌, refl, ap, inl, inr, Bool, true, false, none, some, List, [], ◌∷◌, ◌++◌, Text,
  arith, Bool-cases, ◌==◌, ==_refl, if◌then◌else◌, nat_eq, text_eq,
}
use docker.Archive.Changes.{
  FileInfo, file_info, Children, no_children, child, change_modify, is_dir, find_child, drop_child,
  is_modified, modified, deleted, add_changes, child_changes, changes,
}

-- A map has each name once, and only a directory has children.
unfoldable mutual
  pub IsTree : Bool → FileInfo → Type 0
  IsTree root (file_info stat capability entries) =
      ((is_dir root (file_info stat capability entries) ≡ true) ⊎ (entries ≡ no_children))
      × AreTrees entries

  pub AreTrees : Children → Type 0
  AreTrees no_children = Unit
  AreTrees (child name info rest) =
      (find_child name rest ≡ none) × IsTree false info × AreTrees rest

is_modified_refl : (info : FileInfo) → is_modified info info ≡ false
is_modified_refl (file_info stat capability entries) = ground (
  arith,
  ==_refl stat.mode,
  ==_refl stat.uid,
  ==_refl stat.gid,
  ==_refl stat.rdev,
  ==_refl stat.size,
  ==_refl stat.modified.sec,
  ==_refl stat.modified.nsec,
  ==_refl capability,
)

drop_child_absent :
    (name : Text) (cs : Children) → find_child name cs ≡ none → drop_child name cs ≡ cs
drop_child_absent name no_children e = refl
drop_child_absent name (child n info rest) e = elim (Bool-cases (n == name)) [
  | inl same ↦ absurd (ground (arith, e, same))
  | inr other ↦
      rw other (ap (child n info) (drop_child_absent name rest (ground (arith, e, other))))
]

find_child_here :
    (name : Text) (info : FileInfo) (rest : Children)
    → find_child name (child name info rest) ≡ some info
find_child_here name info rest = rw (==_refl name) refl

drop_child_here :
    (name : Text) (info : FileInfo) (rest : Children)
    → find_child name rest ≡ none
    → drop_child name (child name info rest) ≡ rest
drop_child_here name info rest e = rw (==_refl name) (drop_child_absent name rest e)

empty_changes :
    (path : List Text) (b : Bool) (cs : Children)
    → cs ≡ no_children
    → child_changes path cs (if b then cs else no_children) ≡ []
unfolding child_changes deleted
empty_changes path true cs e = rw e refl
empty_changes path false cs e = rw e refl

mutual
  unfolding add_changes child_changes deleted IsTree AreTrees

  add_changes_refl :
      (path : List Text) (root : Bool) (info : FileInfo)
      → IsTree root info
      → add_changes path root info (some info) ≡ []
  add_changes_refl path root (file_info stat capability entries) (inl dir, trees) =
      ap (λ (b : Bool). child_changes path entries (if b then entries else no_children)) dir
      ∙ child_changes_refl path entries trees
  add_changes_refl path root (file_info stat capability entries) (inr empty, trees) =
      empty_changes path (is_dir root (file_info stat capability entries)) entries empty

  child_changes_refl :
      (path : List Text) (cs : Children) → AreTrees cs → child_changes path cs cs ≡ []
  child_changes_refl path no_children trees = refl
  child_changes_refl path (child name info rest) trees =
      ap
        (λ o.
          modified (path ++ (name ∷ [])) o info
          ++ (add_changes (path ++ (name ∷ [])) false info o
              ++ child_changes path rest (drop_child name (child name info rest))))
        (find_child_here name info rest)
      ∙ (ap
            (λ (b : Bool).
              (if b then record { path = path ++ (name ∷ []); kind = change_modify } ∷ [] else [])
              ++ (add_changes (path ++ (name ∷ [])) false info (some info)
                  ++ child_changes path rest (drop_child name (child name info rest))))
            (is_modified_refl info)
          ∙ (ap (λ l. l ++ child_changes path rest (drop_child name (child name info rest)))
                (add_changes_refl (path ++ (name ∷ [])) false info trees.1)
              ∙ (ap (λ cs. child_changes path rest cs) (drop_child_here name info rest trees.0)
                  ∙ child_changes_refl path rest trees.2)))

-- No changes are reported between a tree and itself.
pub changes_refl : (root : FileInfo) → IsTree true root → changes root root ≡ []
unfolding changes
changes_refl root v = add_changes_refl [] true root v
