-- ===== src/Archive/Layers/Whiteouts/Reading.antt =====
-- What Changes records of the files of a walk: a deletion for each whiteout, and none for the others.
use docker.Common.{
  ◌≡◌, ◌∙◌, refl, ap, Bool, true, false, Option, none, some, inl, inr, List, [], ◌∷◌, ◌++◌, map,
  Text, arith, Bool-cases, if◌then◌else◌, text_eq,
}
use docker.Common.Results.{Result, ok, err}
use docker.Common.Strings.{has_prefix}
use docker.Archive.Changes.{Kind, change_modify, change_add, change_delete, Change}
use docker.Archive.Layers.{
  Entry, Found, found, not_exist, stat_failed, stat_error, WalkError, same_dir, is_root, base_of,
  whiteout_prefix, is_aufs_metadata, layer_kind, recorded, visit_changes, then_changes,
  layer_changes,
}
use docker.Archive.Layers.Whiteouts.Names.{
  deleted_paths, visits_of, is_whiteout, whiteouts_of, stat_fails, CanStat, deletion_of,
}

abbrev is_deletion : Option Kind → Bool
is_deletion none = false
is_deletion (some change_delete) = true
is_deletion (some change_modify) = false
is_deletion (some change_add) = false

layer_kind-is_deletion :
    (layers : List (List Text → Found)) (path : List Text) (f : Entry)
    → CanStat layers
    → (k : Option Kind) × (layer_kind layers path f ≡ ok k) × (is_deletion k ≡ false)
unfolding layer_kind
layer_kind-is_deletion [] path f v = (some change_add, refl, refl)
layer_kind-is_deletion (layer ∷ layers) path f v =
    by_answer (layer path) (v.0 path) (layer_kind-is_deletion layers path f v.1)
  where
    by_answer :
        (a : Found)
        → stat_fails a ≡ false
        → ((k : Option Kind) × (layer_kind layers path f ≡ ok k) × (is_deletion k ≡ false))
        → (k : Option Kind) × (elim a [
          | not_exist ↦ layer_kind layers path f
          | stat_failed ↦ err stat_error
          | found stat ↦ ok (if same_dir f stat then none else some change_modify)
        ]
            ≡ ok k)
          × (is_deletion k ≡ false)
    by_answer not_exist e below = below
    by_answer stat_failed e below = absurd (ground (arith, e))
    by_answer (found stat) e below = elim (Bool-cases (same_dir f stat)) [
      | inl same ↦ rw same (none, refl, refl)
      | inr other ↦ rw other (some change_modify, refl, refl)
    ]

recorded_no_deletion :
    (path : List Text) (r : Result WalkError (Option Kind)) (k : Option Kind)
    → r ≡ ok k
    → is_deletion k ≡ false
    → (cs : List Change) × (recorded path r ≡ ok cs) × (deleted_paths cs ≡ [])
unfolding recorded
recorded_no_deletion path r none e d = ([], ap (recorded path) e, refl)
recorded_no_deletion path r (some change_add) e d =
    (record { path = path; kind = change_add } ∷ [], ap (recorded path) e, refl)
recorded_no_deletion path r (some change_modify) e d =
    (record { path = path; kind = change_modify } ∷ [], ap (recorded path) e, refl)
recorded_no_deletion path r (some change_delete) e d = absurd (ground (arith, d))

-- What is recorded of one file: a deletion if it is a whiteout, and else none.
visit-deleted_paths :
    (layers : List (List Text → Found)) (path : List Text) (f : Entry)
    → CanStat layers
    → (cs : List Change) × (visit_changes layers path f ≡ ok cs)
      × (deleted_paths cs ≡ (if is_whiteout path then deletion_of path ∷ [] else []))
unfolding visit_changes
visit-deleted_paths layers path f v = elim (Bool-cases (is_root path)) [
  | inl root ↦ rw (root, visit_changes) ([], refl, refl)
  | inr below ↦ elim (Bool-cases (is_aufs_metadata path)) [
    | inl meta ↦ rw (below, meta, visit_changes) ([], refl, refl)
    | inr plain ↦ elim (Bool-cases (has_prefix (base_of path) whiteout_prefix)) [
      | inl w ↦
          rw (below, plain, w, visit_changes)
            (record { path = deletion_of path; kind = change_delete } ∷ [], refl, refl)
      | inr n ↦
          let (k, e, d) = layer_kind-is_deletion layers path f v in
          rw (below, plain, n, visit_changes) (recorded_no_deletion path _ k e d)
    ]
  ]
]

deleted_paths-append :
    (cs ds : List Change) → deleted_paths (cs ++ ds) ≡ deleted_paths cs ++ deleted_paths ds
deleted_paths-append [] ds = refl
deleted_paths-append (c ∷ cs) ds = by_kind c.kind (deleted_paths-append cs ds)
  where
    after : Kind → List (List Text) → List (List Text)
    after k others = elim k [
      | change_delete ↦ c.path ∷ others
      | change_modify ↦ others
      | change_add ↦ others
    ]

    by_kind :
        (k : Kind)
        → deleted_paths (cs ++ ds) ≡ deleted_paths cs ++ deleted_paths ds
        → after k (deleted_paths (cs ++ ds)) ≡ after k (deleted_paths cs) ++ deleted_paths ds
    by_kind change_delete e = ap (λ l. c.path ∷ l) e
    by_kind change_modify e = e
    by_kind change_add e = e

pub layer_changes-deleted_paths :
    (layers : List (List Text → Found)) (walk : List (List Text × Entry))
    → CanStat layers
    → (cs : List Change) × (layer_changes layers (visits_of walk) ≡ ok cs)
      × (deleted_paths cs ≡ map deletion_of (whiteouts_of walk))
unfolding layer_changes then_changes
layer_changes-deleted_paths layers [] v = ([], refl, refl)
layer_changes-deleted_paths layers ((path, f) ∷ rest) v =
    let (cs, e, d) = visit-deleted_paths layers path f v in
    let (ds, e', d') = layer_changes-deleted_paths layers rest v in
    (
      cs ++ ds,
      ap (λ r. then_changes r (layer_changes layers (visits_of rest))) e
          ∙ ap (then_changes (ok cs)) e',
      deleted_paths-append cs ds
          ∙ ap (λ l. l ++ deleted_paths ds) d
          ∙ ap (λ l. (if is_whiteout path then deletion_of path ∷ [] else []) ++ l) d'
          ∙ in_front (is_whiteout path),
    )
  where
    in_front :
        (b : Bool)
        → (if b then deletion_of path ∷ [] else []) ++ map deletion_of (whiteouts_of rest)
          ≡ map deletion_of (if b then path ∷ whiteouts_of rest else whiteouts_of rest)
    in_front true = refl
    in_front false = refl
