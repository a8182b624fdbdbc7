-- ===== src/Archive/Changes.antt =====
-- The changes between two trees of files: archive/changes.go. A path is the list of its elements,
-- so that the root is the empty one, and a map of children a chain of names.
pub mod Unchanged
pub mod Alike
use docker.Common.{
  ℕ, ◌/◌, ◌%◌, Bool, true, false, ◌&&◌, ◌||◌, not, Option, none, some, List, [], ◌∷◌, ◌++◌, Text,
  ◌==◌, if◌then◌else◌, nat_eq, text_eq,
}

-- `syscall.Timespec`
pub record Timespec : Type 0 where
  pub sec : ℕ
  pub nsec : ℕ

-- What is compared of a `syscall.Stat_t`.
pub record Stat : Type 0 where
  pub mode : ℕ
  pub uid : ℕ
  pub gid : ℕ
  pub rdev : ℕ
  pub size : ℕ
  pub modified : Timespec

mutual
  pub data FileInfo : Type 0 where
    file_info : Stat → Text → Children → FileInfo

  pub data Children : Type 0 where
    no_children : Children
    child : Text → FileInfo → Children → Children

abbrev pub stat_of : FileInfo → Stat
stat_of (file_info stat capability entries) = stat

abbrev pub capability_of : FileInfo → Text
capability_of (file_info stat capability entries) = capability

abbrev pub children_of : FileInfo → Children
children_of (file_info stat capability entries) = entries

pub data Kind : Type 0 where
  change_modify change_add change_delete : Kind

pub record Change : Type 0 where
  pub path : List Text
  pub kind : Kind

abbrev pub same_fs_time_spec : Timespec → Timespec → Bool
same_fs_time_spec a b = a.sec == b.sec && (a.nsec == b.nsec || (a.nsec == 0 || b.nsec == 0))

-- `mode & S_IFDIR == S_IFDIR`: the bit 14 of the mode.
abbrev pub has_dir_bit : ℕ → Bool
has_dir_bit mode = (mode / 16384) % 2 == 1

-- `parent == nil` is that it is the root.
abbrev pub is_dir : Bool → FileInfo → Bool
is_dir root info = root || has_dir_bit (stat_of info).mode

abbrev pub find_child : Text → Children → Option FileInfo
find_child name no_children = none
find_child name (child n info rest) = if n == name then some info else find_child name rest

abbrev pub drop_child : Text → Children → Children
drop_child name no_children = no_children
drop_child name (child n info rest) =
    let others = drop_child name rest in if n == name then others else child n info others

-- `LookUp`
abbrev pub look_up : List Text → FileInfo → Option FileInfo
look_up [] info = some info
look_up (name ∷ path) info = elim (find_child name (children_of info)) [
  | none ↦ none
  | some next ↦ look_up path next
]

abbrev pub is_modified : FileInfo → FileInfo → Bool
is_modified old new =
    not ((stat_of old).mode == (stat_of new).mode)
    || (not ((stat_of old).uid == (stat_of new).uid)
        || (not ((stat_of old).gid == (stat_of new).gid)
            || (not ((stat_of old).rdev == (stat_of new).rdev)
                || ((not ((stat_of old).size == (stat_of new).size)
                      && not (has_dir_bit (stat_of old).mode))
                    || (not (same_fs_time_spec (stat_of old).modified (stat_of new).modified)
                        || not (capability_of old == capability_of new))))))

abbrev pub modified : List Text → Option FileInfo → FileInfo → List Change
modified path none new = []
modified path (some old) new =
    if is_modified old new then record { path = path; kind = change_modify } ∷ [] else []

abbrev pub added : List Text → Option FileInfo → List Change
added path none = record { path = path; kind = change_add } ∷ []
added path (some old) = []

unfoldable pub deleted : List Text → Children → List Change
deleted path no_children = []
deleted path (child name old rest) =
    record { path = path ++ (name ∷ []); kind = change_delete } ∷ deleted path rest

-- The children of the old file that are compared, those of a directory.
abbrev pub old_children : Bool → FileInfo → Option FileInfo → Children
old_children root info none = no_children
old_children root info (some old) = if is_dir root info then children_of old else no_children

-- `addChanges`: the file with the old one in its place, and its children with the old ones. An old
-- child that was compared is taken out of the copy, and those that are left were deleted.
unfoldable mutual
  pub add_changes : List Text → Bool → FileInfo → Option FileInfo → List Change
  add_changes path root (file_info stat capability entries) old =
      added path old
      ++ child_changes path entries (old_children root (file_info stat capability entries) old)

  pub child_changes : List Text → Children → Children → List Change
  child_changes path no_children olds = deleted path olds
  child_changes path (child name new rest) olds =
      modified (path ++ (name ∷ [])) (find_child name olds) new
      ++ (add_changes (path ++ (name ∷ [])) false new (find_child name olds)
          ++ child_changes path rest (drop_child name olds))

-- `Changes` of a root
unfoldable pub changes : FileInfo → FileInfo → List Change
unfolding add_changes child_changes
changes new old = add_changes [] true new (some old)
