-- ===== src/Archive/Layers.antt =====
-- The changes that the topmost of several layers makes, and the files that record a deletion:
-- archive/changes.go. A path is the list of its elements; a walk is the list of what it finds.
pub mod Whiteouts
use docker.Common.{
  ℕ, ◌+◌, Bool, true, false, ◌&&◌, not, Option, none, some, List, [], ◌∷◌, ◌++◌, Text, codes, ◌==◌,
  if◌then◌else◌, nat_eq, text_eq,
}
use docker.Common.Results.{Result, ok, err}
use docker.Common.Strings.{has_prefix, drop_prefix}
use docker.Archive.Changes.{
  Timespec, same_fs_time_spec, Kind, change_modify, change_add, change_delete, Change,
}

-- What is asked of an `os.FileInfo`.
pub record Entry : Type 0 where
  pub is_dir : Bool
  pub size : ℕ
  pub mode : ℕ
  pub modified : Timespec

-- What os.Stat answers for a path of a layer.
pub data Found : Type 0 where
  found : Entry → Found
  not_exist : Found
  stat_failed : Found

-- What filepath.Walk passes on: a file, or an error, with whether it is one of a missing file.
pub data Visit : Type 0 where
  visit : List Text → Entry → Visit
  visit_error : Bool → Visit

pub data WalkError : Type 0 where
  walk_error stat_error : WalkError

-- `sameFsTime`
abbrev pub same_fs_time : Timespec → Timespec → Bool
same_fs_time = same_fs_time_spec

-- Both directories are the same.
abbrev pub same_dir : Entry → Entry → Bool
same_dir f stat =
    (stat.is_dir && f.is_dir)
    && (f.size == stat.size && (f.mode == stat.mode && same_fs_time f.modified stat.modified))

-- The kind of a file that is no whiteout: none where there is nothing to record.
unfoldable pub layer_kind :
    List (List Text → Found) → List Text → Entry → Result WalkError (Option Kind)
layer_kind [] path f = ok (some change_add)
layer_kind (layer ∷ layers) path f = elim (layer path) [
  | not_exist ↦ layer_kind layers path f
  | stat_failed ↦ err stat_error
  | found stat ↦ ok (if same_dir f stat then none else some change_modify)
]

abbrev pub is_root : List Text → Bool
is_root [] = true
is_root (name ∷ path) = false

-- filepath.Dir and filepath.Base
abbrev pub dir_of : List Text → List Text
dir_of [] = []
dir_of (name ∷ []) = []
dir_of (name ∷ next ∷ path) = name ∷ dir_of (next ∷ path)

abbrev pub base_of : List Text → Text
base_of [] = codes "/"
base_of (name ∷ []) = name
base_of (name ∷ next ∷ path) = base_of (next ∷ path)

-- filepath.Join(dir, name), which cleans the path, for a name without a slash.
abbrev pub join_path : List Text → Text → List Text
join_path dir name =
    if name == []
    then dir
    else if name == codes "."
    then dir
    else if name == codes ".."
    then dir_of dir
    else dir ++ (name ∷ [])

abbrev pub whiteout_prefix : Text
whiteout_prefix = codes ".wh."

-- filepath.Match("/.wh..wh.*", path)
abbrev pub is_aufs_metadata : List Text → Bool
is_aufs_metadata [] = false
is_aufs_metadata (name ∷ []) = has_prefix name (codes ".wh..wh.")
is_aufs_metadata (name ∷ next ∷ path) = false

unfoldable pub recorded :
    List Text → Result WalkError (Option Kind) → Result WalkError (List Change)
recorded path (err e) = err e
recorded path (ok none) = ok []
recorded path (ok (some kind)) = ok (record { path = path; kind = kind } ∷ [])

-- What the function that is passed to Walk records of one file.
unfoldable pub visit_changes :
    List (List Text → Found) → List Text → Entry → Result WalkError (List Change)
unfolding recorded layer_kind
visit_changes layers path f =
    if is_root path
    then ok []
    else if is_aufs_metadata path
    then ok []
    else if has_prefix (base_of path) whiteout_prefix
    then ok (
        record {
          path = join_path (dir_of path) (drop_prefix (base_of path) whiteout_prefix);
          kind = change_delete;
        }
        ∷ [])
    else recorded path (layer_kind layers path f)

unfoldable pub then_changes :
    Result WalkError (List Change) → Result WalkError (List Change) → Result WalkError (List Change)
then_changes (err e) rest = err e
then_changes (ok first) (err e) = err e
then_changes (ok first) (ok rest) = ok (first ++ rest)

-- `Changes`: a missing file ends the walk, but not with an error.
unfoldable pub layer_changes :
    List (List Text → Found) → List Visit → Result WalkError (List Change)
unfolding then_changes visit_changes
layer_changes layers [] = ok []
layer_changes layers (visit_error missing ∷ visits) = if missing then ok [] else err walk_error
layer_changes layers (visit path f ∷ visits) =
    then_changes (visit_changes layers path f) (layer_changes layers visits)

-- `ChangesSize`, where `stat` is os.Lstat below the directory
unfoldable pub changes_size : (List Text → Option Entry) → List Change → ℕ
changes_size stat [] = 0
changes_size stat (change ∷ rest) =
    let others = changes_size stat rest in
    elim change.kind [
      | change_delete ↦ others
      | change_modify ↦ elim (stat change.path) [
        | none ↦ others
        | some f ↦ if f.is_dir then others else f.size + others
      ]
      | change_add ↦ elim (stat change.path) [
        | none ↦ others
        | some f ↦ if f.is_dir then others else f.size + others
      ]
    ]

-- What ExportChanges writes to the archive for a change.
pub data Header : Type 0 where
  whiteout : List Text → Header
  file : List Text → Header

abbrev pub whiteout_of : List Text → List Text
whiteout_of path = join_path (dir_of path) (whiteout_prefix ++ base_of path)

abbrev pub header_of : Kind → List Text → Header
header_of change_delete path = whiteout (whiteout_of path)
header_of change_modify path = file path
header_of change_add path = file path

unfoldable pub export_changes : List Change → List Header
export_changes [] = []
export_changes (change ∷ rest) = header_of change.kind change.path ∷ export_changes rest
