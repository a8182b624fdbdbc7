-- ===== src/Archive/Layers/Whiteouts.antt =====
-- Deletions that are exported are read back.
pub mod Names
mod Reading
use docker.Common.{◌≡◌, ◌∙◌, sym, ap, subst, List, map, Text}
use mathlib.Core.List.{Perm}
use mathlib.Core.List.Perm
use docker.Common.Results.{ok}
use docker.Archive.Changes.{Change}
use docker.Archive.Layers.{Entry, Found, layer_changes, export_changes}
use docker.Archive.Layers.Whiteouts.Names.{
  AreNamed, deleted_paths, written, visits_of, whiteouts_of, CanStat, deletion_of, map-whiteout_of,
  written-export_changes,
}
use docker.Archive.Layers.Whiteouts.Reading.{layer_changes-deleted_paths}

-- Where the whiteouts that a walk comes upon are those that ExportChanges wrote for the changes, in any
-- order and among any other files and directories, Changes ends without an error, and the paths that it
-- reports as deleted are those of the deletions that were exported, up to their order, whatever the
-- layers below hold. The walk has no error, os.Stat fails in no layer but for a missing file, and the
-- deleted files have names of their own and whiteouts that are not taken for the metadata of AUFS.
pub layer_changes-export_changes :
    (layers : List (List Text → Found)) (walk : List (List Text × Entry)) (changes : List Change)
    → CanStat layers
    → AreNamed (deleted_paths changes)
    → Perm (whiteouts_of walk) (written (export_changes changes))
    → (reported : List Change) × (layer_changes layers (visits_of walk) ≡ ok reported)
      × Perm (deleted_paths reported) (deleted_paths changes)
layer_changes-export_changes layers walk changes v named same =
    let (reported, e, d) = layer_changes-deleted_paths layers walk v in
    let back : map deletion_of (written (export_changes changes)) ≡ deleted_paths changes =
      ap (map deletion_of) (written-export_changes changes)
      ∙ map-whiteout_of (deleted_paths changes) named in
    let moved = Perm.map deletion_of same in
    (
      reported,
      e,
      subst (λ l. Perm l (deleted_paths changes)) (sym d)
          (subst (λ l. Perm (map deletion_of (whiteouts_of walk)) l) back moved),
    )
