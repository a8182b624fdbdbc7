-- ===== src/Archive/Changes/Alike.antt =====
-- Where no changes are reported, the two trees have the same files, with the same attributes.
use docker.Common.{
  ◌≡◌, ◌⊎◌, ◌∙◌, refl, sym, ap, subst, inl, inr, Bool, true, false, ◌||◌, Option, none, some, List,
  [], ◌∷◌, ◌++◌, Text, arith, Bool-cases, Option-cases, ◌==◌, ==_iff, if◌then◌else◌, nat_eq,
  text_eq,
}
use docker.Archive.Changes.{
  FileInfo, file_info, Children, no_children, child, stat_of, children_of, Change, is_dir,
  has_dir_bit, find_child, drop_child, look_up, is_modified, modified, deleted, old_children,
  add_changes, child_changes, changes,
}
use docker.Archive.Changes.Unchanged.{IsTree, AreTrees}

-- Both files are there, with the same attributes, or none is.
abbrev pub AreAlike : Option FileInfo → Option FileInfo → Type 0
AreAlike none none = Unit
AreAlike none (some old) = ⊥
AreAlike (some new) none = ⊥
AreAlike (some new) (some old) = is_modified old new ≡ false

left_empty : (xs ys : List Change) → xs ++ ys ≡ [] → xs ≡ []
left_empty [] ys e = refl
left_empty (x ∷ xs) ys e = absurd (ground (arith, e))

right_empty : (xs ys : List Change) → xs ++ ys ≡ [] → ys ≡ []
right_empty [] ys e = e
right_empty (x ∷ xs) ys e = absurd (ground (arith, e))

find_drop :
    (m n : Text) (cs : Children)
    → (m == n) ≡ false
    → find_child n (drop_child m cs) ≡ find_child n cs
find_drop m n no_children ne = refl
find_drop m n (child k info rest) ne =
    ground (arith, ne, ==_iff k m, ==_iff k n, ==_iff m n, find_drop m n rest ne)

find_dropped :
    (m n : Text) (cs : Children) → find_child n cs ≡ none → find_child n (drop_child m cs) ≡ none
find_dropped m n no_children e = refl
find_dropped m n (child k info rest) e = elim (Bool-cases (k == m)) [
  | inl a ↦ elim (Bool-cases (k == n)) [
    | inl b ↦ absurd (ground (arith, e, b))
    | inr b ↦ rw a (find_dropped m n rest (ground (arith, e, b)))
  ]
  | inr a ↦ elim (Bool-cases (k == n)) [
    | inl b ↦ absurd (ground (arith, e, b))
    | inr b ↦ rw (a, b) (find_dropped m n rest (ground (arith, e, b)))
  ]
]

AreTrees-drop : (m : Text) (cs : Children) → AreTrees cs → AreTrees (drop_child m cs)
unfolding AreTrees
AreTrees-drop m no_children v = v
AreTrees-drop m (child k info rest) v = elim (Bool-cases (k == m)) [
  | inl a ↦ rw a (AreTrees-drop m rest v.2)
  | inr a ↦ rw a (find_dropped m k rest v.0, v.1, AreTrees-drop m rest v.2)
]

IsTree-find :
    (m : Text) (cs : Children) (info : FileInfo)
    → AreTrees cs
    → find_child m cs ≡ some info
    → IsTree false info
unfolding AreTrees
IsTree-find m no_children info v e = absurd (ground (arith, e))
IsTree-find m (child k i rest) info v e = elim (Bool-cases (k == m)) [
  | inl a ↦ subst (IsTree false) (ground (arith, e, a)) v.1
  | inr a ↦ IsTree-find m rest info v.2 (ground (arith, e, a))
]

same_mode :
    (old new : FileInfo) → is_modified old new ≡ false → (stat_of old).mode ≡ (stat_of new).mode
same_mode old new e = (==_iff (stat_of old).mode (stat_of new).mode).0 (ground (arith, e))

unmodified :
    (path : List Text) (old new : FileInfo)
    → modified path (some old) new ≡ []
    → is_modified old new ≡ false
unmodified path old new e = elim (Bool-cases (is_modified old new)) [
  | inl yes_ ↦ absurd (ground (arith, e, yes_))
  | inr no_ ↦ no_
]

-- The old children that count are all of them, where the file was not modified.
old_children-all :
    (root : Bool) (new old : FileInfo)
    → IsTree root old
    → (root ≡ true) ⊎ (is_modified old new ≡ false)
    → old_children root new (some old) ≡ children_of old
unfolding IsTree
old_children-all root new (file_info stat capability entries) (inr empty, trees) same =
    elim (Bool-cases (is_dir root new)) [ inl b ↦ rw b refl | inr b ↦ rw b (sym empty) ]
old_children-all root new (file_info stat capability entries) (inl dir, trees) (inl top) =
    rw top refl
old_children-all root new (file_info stat capability entries) (inl dir, trees) (inr same) =
    ap (λ (b : Bool). if b then entries else no_children)
      (ap (λ n. root || has_dir_bit n)
          (sym (same_mode (file_info stat capability entries) new same))
        ∙ dir)

abbrev through : List Text → Option FileInfo → Option FileInfo
through path o = elim o [ none ↦ none | some next ↦ look_up path next ]

through-AreAlike :
    (path : List Text) {new new' old old' : Option FileInfo}
    → new ≡ new'
    → old ≡ old'
    → AreAlike (through path new') (through path old')
    → AreAlike (through path new) (through path old)
through-AreAlike path {new' = new'} {old = old} e e' h =
    subst (λ o. AreAlike (through path o) (through path old)) (sym e)
      (subst (λ o. AreAlike (through path new') (through path o)) (sym e') h)

path_alike :
    (new old : FileInfo)
    → is_modified old new ≡ false
    → ((name : Text) (rest : List Text)
        → AreAlike (look_up (name ∷ rest) new) (look_up (name ∷ rest) old))
    → (rest : List Text) → AreAlike (look_up rest new) (look_up rest old)
path_alike new old same below [] = same
path_alike new old same below (name ∷ rest) = below name rest

deleted_none : (path : List Text) (cs : Children) → deleted path cs ≡ [] → cs ≡ no_children
unfolding deleted
deleted_none path no_children e = refl
deleted_none path (child k i rest) e = absurd (ground (arith, e))

add_new :
    (path : List Text) (root : Bool) (new : FileInfo) → add_changes path root new none ≡ [] → ⊥
unfolding add_changes
add_new path root (file_info stat capability entries) e = absurd (ground (arith, e))

mutual
  unfolding add_changes child_changes IsTree AreTrees

  file_alike :
      (path : List Text) (root : Bool) (new old : FileInfo)
      → IsTree root old
      → (root ≡ true) ⊎ (is_modified old new ≡ false)
      → add_changes path root new (some old) ≡ []
      → (name : Text) (rest : List Text)
      → AreAlike (look_up (name ∷ rest) new) (look_up (name ∷ rest) old)
  file_alike path root (file_info stat capability entries) (file_info stat' capability' entries') v
        same e name rest =
      child_alike path entries entries' v.1
        (ap (λ cs. child_changes path entries cs)
            (sym (
              old_children-all root (file_info stat capability entries)
                (file_info stat' capability' entries') v same))
          ∙ e)
        name rest

  child_alike :
      (path : List Text) (cs olds : Children)
      → AreTrees olds
      → child_changes path cs olds ≡ []
      → (name : Text) (rest : List Text)
      → AreAlike (through rest (find_child name cs)) (through rest (find_child name olds))
  child_alike path no_children olds v e name rest =
      subst (λ cs. AreAlike none (through rest (find_child name cs)))
        (sym (deleted_none path olds e)) tt
  child_alike path (child m new others) olds v e name rest =
      elim (Option-cases (find_child m olds)) [
        | inl gone ↦ absurd (
            add_new (path ++ (m ∷ [])) false new
              (ap (λ o. add_changes (path ++ (m ∷ [])) false new o) (sym gone) ∙ added_here))
        | inr (old, there) ↦ elim (Bool-cases (m == name)) [
          | inl here ↦
              let same : is_modified old new ≡ false =
                unmodified (path ++ (m ∷ [])) old new
                  (ap (λ o. modified (path ++ (m ∷ [])) o new) (sym there) ∙ left_empty _ _ e) in
              through-AreAlike rest {new' = some new} (rw here refl)
                (ap (λ n. find_child n olds) (sym ((==_iff m name).0 here)) ∙ there)
                (path_alike new old same
                  (λ n r.
                    file_alike (path ++ (m ∷ [])) false new old (IsTree-find m olds old v there)
                      (inr same)
                      (ap (λ o. add_changes (path ++ (m ∷ [])) false new o) (sym there)
                        ∙ added_here)
                      n r)
                  rest)
          | inr other ↦
              through-AreAlike rest {new' = find_child name others} (rw other refl)
                (sym (find_drop m name olds other))
                (child_alike path others (drop_child m olds) (AreTrees-drop m olds v)
                  (right_empty _ _ after) name rest)
        ]
      ]
    where
      after :
          add_changes (path ++ (m ∷ [])) false new (find_child m olds)
            ++ child_changes path others (drop_child m olds)
          ≡ []
      after = right_empty (modified (path ++ (m ∷ [])) (find_child m olds) new) _ e

      added_here : add_changes (path ++ (m ∷ [])) false new (find_child m olds) ≡ []
      added_here = left_empty _ _ after

-- Where no changes are reported, with each name at most once in an old directory and no children of
-- other old files, a path below the root is in both trees or in none, and where it is in both, the
-- two files compare as unmodified.
pub changes-AreAlike :
    (new old : FileInfo)
    → IsTree true old
    → changes new old ≡ []
    → (name : Text) (rest : List Text)
    → AreAlike (look_up (name ∷ rest) new) (look_up (name ∷ rest) old)
unfolding changes
changes-AreAlike new old v e = file_alike [] true new old v (inl refl) e
