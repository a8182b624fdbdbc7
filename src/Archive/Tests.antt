-- ===== src/Archive/Tests.antt =====
-- A tree, a layer, and the theorems at them.
use docker.Common.{◌≡◌, refl, inl, inr, true, false, List, [], ◌∷◌, Text, codes, text_eq, nat_eq}
use mathlib.Core.List.{Perm}
use mathlib.Core.List.Perm
use docker.Common.Results.{ok}
use docker.Archive.Changes.{
  Stat, FileInfo, file_info, no_children, child, Change, change_add, change_modify, change_delete,
  look_up, deleted, add_changes, child_changes, changes,
}
use docker.Archive.Changes.Unchanged.{IsTree, AreTrees, changes_refl}
use docker.Archive.Changes.Alike.{AreAlike, changes-AreAlike}
use docker.Archive.Layers.{Entry, not_exist, layer_changes, export_changes}
use docker.Archive.Layers.Whiteouts.{layer_changes-export_changes}
use docker.Archive.Layers.Whiteouts.Names.{
  AreNamed, deleted_paths, visits_of, whiteouts_of, written,
}

abbrev stat : Stat
stat = record {
  mode = 16877;
  uid = 0;
  gid = 0;
  rdev = 0;
  size = 4096;
  modified = record { sec = 5; nsec = 0 };
}

abbrev text_file : FileInfo
text_file = file_info (record stat { mode = 33188 }) [] no_children

abbrev tree : FileInfo
tree = file_info stat [] (
    child (codes "etc") (file_info stat [] (child (codes "hosts") text_file no_children))
      (child (codes "motd") text_file no_children))

-- The tree copied by tar, which keeps whole seconds.
abbrev copied : FileInfo
copied = file_info stat [] (
    child (codes "motd")
      (file_info (record stat { mode = 33188; modified = record { sec = 5; nsec = 7 } }) []
        no_children)
      (child (codes "etc") (file_info stat [] (child (codes "hosts") text_file no_children))
        no_children))

tree-IsTree : IsTree true tree
unfolding IsTree AreTrees
tree-IsTree = (inl refl, (refl, (inl refl, (refl, (inr refl, tt), tt)), (refl, (inr refl, tt), tt)))

no_changes : changes copied tree ≡ []
unfolding changes add_changes child_changes deleted
no_changes = refl

one_of_each :
    changes
      (file_info stat [] (
        child
          (codes "motd")
          (file_info stat [] no_children)
          (child (codes "new") text_file no_children)))
      tree
    ≡ record { path = codes "motd" ∷ []; kind = change_modify }
      ∷ record { path = codes "new" ∷ []; kind = change_add }
      ∷ record { path = codes "etc" ∷ []; kind = change_delete }
      ∷ []
unfolding changes add_changes child_changes deleted
one_of_each = refl

changes_refl_example : changes tree tree ≡ []
changes_refl_example = changes_refl tree tree-IsTree

changes-AreAlike_example :
    AreAlike
      (look_up (codes "etc" ∷ codes "hosts" ∷ []) copied)
      (look_up (codes "etc" ∷ codes "hosts" ∷ []) tree)
changes-AreAlike_example =
    changes-AreAlike copied tree tree-IsTree no_changes (codes "etc") (codes "hosts" ∷ [])

abbrev entry : Entry
entry = record { is_dir = false; size = 0; mode = 33188; modified = record { sec = 0; nsec = 0 } }

abbrev directory : Entry
directory = record entry { is_dir = true }

-- The deletions of two files, and between them a change of a third.
abbrev exported : List Change
exported =
    record { path = codes "etc" ∷ codes "hosts" ∷ []; kind = change_delete }
    ∷ record { path = codes "etc" ∷ codes "motd" ∷ []; kind = change_modify }
    ∷ record { path = codes "srv" ∷ []; kind = change_delete }
    ∷ []

-- The walk over the unpacked archive: the directories too, each before what it holds, sorted by name.
abbrev walk : List (List Text × Entry)
walk =
    ([], directory)
    ∷ (codes ".wh.srv" ∷ [], entry)
    ∷ (codes "etc" ∷ [], directory)
    ∷ (codes "etc" ∷ codes ".wh.hosts" ∷ [], entry)
    ∷ (codes "etc" ∷ codes "motd" ∷ [], entry)
    ∷ []

exported-AreNamed : AreNamed (deleted_paths exported)
exported-AreNamed = (
  record { below = refl; name = refl; plain = refl },
  (record { below = refl; name = refl; plain = refl }, tt),
)

same_whiteouts : Perm (whiteouts_of walk) (written (export_changes exported))
unfolding export_changes
same_whiteouts = Perm.swap (codes "etc" ∷ codes ".wh.hosts" ∷ []) (codes ".wh.srv" ∷ []) []

layer_changes-export_changes_example :
    (reported : List Change) × (layer_changes ((λ path. not_exist) ∷ []) (visits_of walk)
      ≡ ok reported)
    × Perm (deleted_paths reported) (deleted_paths exported)
layer_changes-export_changes_example =
    layer_changes-export_changes ((λ path. not_exist) ∷ []) walk exported ((λ path. refl), tt)
      exported-AreNamed same_whiteouts
