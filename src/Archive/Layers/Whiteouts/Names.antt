-- ===== src/Archive/Layers/Whiteouts/Names.antt =====
-- The names of whiteouts, the paths that they stand for, and what a walk comes upon.
use docker.Common.{
  ◌≡◌, ◌∙◌, refl, ap, Bool, true, false, ◌&&◌, not, List, [], ◌∷◌, ◌++◌, map, Text, codes, arith,
  if◌then◌else◌, ◌==◌, text_eq,
}
use docker.Common.Strings.{has_prefix, drop_prefix}
use docker.Archive.Changes.{Kind, change_modify, change_add, change_delete, Change}
use docker.Archive.Layers.{
  Entry, Found, found, not_exist, stat_failed, Visit, visit, is_root, dir_of, base_of, join_path,
  whiteout_prefix, is_aufs_metadata, Header, whiteout, file, whiteout_of, header_of, export_changes,
}

-- A name that joining a path leaves as it is.
abbrev pub is_element : Text → Bool
is_element name = not (name == []) && (not (name == codes ".") && not (name == codes ".."))

-- A path that is not the root, with a name of its own and a whiteout that is not taken for metadata of
-- AUFS.
pub record IsNamed (path : List Text) : Type 0 where
  pub below : is_root path ≡ false
  pub name : is_element (base_of path) ≡ true
  pub plain : is_aufs_metadata (whiteout_of path) ≡ false

abbrev pub AreNamed : List (List Text) → Type 0
AreNamed [] = Unit
AreNamed (path ∷ rest) = IsNamed path × AreNamed rest

-- The paths of the changes that are deletions.
abbrev pub deleted_paths : List Change → List (List Text)
deleted_paths [] = []
deleted_paths (c ∷ rest) =
    let others = deleted_paths rest in
    elim c.kind [ change_delete ↦ c.path ∷ others | change_modify ↦ others | change_add ↦ others ]

-- The whiteouts among what ExportChanges writes.
abbrev pub written : List Header → List (List Text)
written [] = []
written (whiteout path ∷ rest) = path ∷ written rest
written (file path ∷ rest) = written rest

-- What a walk without errors comes upon: directories and files of every kind, in some order.
abbrev pub visits_of : List (List Text × Entry) → List Visit
visits_of [] = []
visits_of ((path, f) ∷ rest) = visit path f ∷ visits_of rest

abbrev pub is_whiteout : List Text → Bool
is_whiteout path =
    not (is_root path) && (not (is_aufs_metadata path) && has_prefix (base_of path) whiteout_prefix)

-- The files of a walk that are named as whiteouts.
abbrev pub whiteouts_of : List (List Text × Entry) → List (List Text)
whiteouts_of [] = []
whiteouts_of ((path, f) ∷ rest) =
    let others = whiteouts_of rest in if is_whiteout path then path ∷ others else others

abbrev pub stat_fails : Found → Bool
stat_fails (found stat) = false
stat_fails not_exist = false
stat_fails stat_failed = true

-- os.Stat fails in no layer, other than for a missing file.
abbrev pub CanStat : List (List Text → Found) → Type 0
CanStat [] = Unit
CanStat (layer ∷ layers) = ((path : List Text) → stat_fails (layer path) ≡ false) × CanStat layers

abbrev pub deletion_of : List Text → List Text
deletion_of path = join_path (dir_of path) (drop_prefix (base_of path) whiteout_prefix)

dir_base : (path : List Text) → is_root path ≡ false → dir_of path ++ (base_of path ∷ []) ≡ path
dir_base [] e = absurd (ground (arith, e))
dir_base (name ∷ []) e = refl
dir_base (name ∷ next ∷ path) e = ap (λ p. name ∷ p) (dir_base (next ∷ path) refl)

dir_of-append : (dir : List Text) (name : Text) → dir_of (dir ++ (name ∷ [])) ≡ dir
dir_of-append [] name = refl
dir_of-append (d ∷ []) name = refl
dir_of-append (d ∷ d' ∷ dir) name = ap (λ p. d ∷ p) (dir_of-append (d' ∷ dir) name)

base_of-append : (dir : List Text) (name : Text) → base_of (dir ++ (name ∷ [])) ≡ name
base_of-append [] name = refl
base_of-append (d ∷ []) name = refl
base_of-append (d ∷ d' ∷ dir) name = base_of-append (d' ∷ dir) name

is_root-append : (dir : List Text) (name : Text) → is_root (dir ++ (name ∷ [])) ≡ false
is_root-append [] name = refl
is_root-append (d ∷ dir) name = refl

join_element :
    (dir : List Text) (name : Text)
    → is_element name ≡ true
    → join_path dir name ≡ dir ++ (name ∷ [])
join_element dir name e = ground (arith, e)

whiteout_of_lem :
    (path : List Text) → whiteout_of path ≡ dir_of path ++ ((whiteout_prefix ++ base_of path) ∷ [])
whiteout_of_lem path = refl

deletion_of-whiteout_of : (path : List Text) → IsNamed path → deletion_of (whiteout_of path) ≡ path
deletion_of-whiteout_of path v =
    ap (λ d. join_path d (drop_prefix (base_of (whiteout_of path)) whiteout_prefix))
      (dir_of-append (dir_of path) (whiteout_prefix ++ base_of path))
    ∙ ap (λ b. join_path (dir_of path) (drop_prefix b whiteout_prefix))
        (base_of-append (dir_of path) (whiteout_prefix ++ base_of path))
    ∙ join_element (dir_of path) (base_of path) v.name
    ∙ dir_base path v.below

pub map-whiteout_of :
    (paths : List (List Text)) → AreNamed paths → map deletion_of (map whiteout_of paths) ≡ paths
map-whiteout_of [] v = refl
map-whiteout_of (path ∷ rest) v =
    ap (λ p. p ∷ map deletion_of (map whiteout_of rest)) (deletion_of-whiteout_of path v.0)
    ∙ ap (λ l. path ∷ l) (map-whiteout_of rest v.1)

pub written-export_changes :
    (changes : List Change)
    → written (export_changes changes) ≡ map whiteout_of (deleted_paths changes)
unfolding export_changes
written-export_changes [] = refl
written-export_changes (c ∷ rest) = by_kind c.kind (written-export_changes rest)
  where
    by_kind :
        (k : Kind)
        → written (export_changes rest) ≡ map whiteout_of (deleted_paths rest)
        → written (header_of k c.path ∷ export_changes rest)
          ≡ map whiteout_of (elim k [
            | change_delete ↦ c.path ∷ deleted_paths rest
            | change_modify ↦ deleted_paths rest
            | change_add ↦ deleted_paths rest
          ])
    by_kind change_delete e = ap (λ l. whiteout_of c.path ∷ l) e
    by_kind change_modify e = e
    by_kind change_add e = e
