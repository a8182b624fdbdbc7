-- ===== src/Images/TagStore.antt =====
-- graph/tags.go: the repositories and their tags, in memory and in a file, and the pulls and pushes
-- that are in progress. The graph of the images is a parameter: `graph` is what its Get returns.
pub mod Repositories
pub mod Calls
pub mod Names
mod Deletion
pub mod Pools
mod Tests
use docker.Common.{
  ℕ, Bool, true, false, ◌||◌, ◌&&◌, Option, none, some, List, [], ◌∷◌, ◌++◌, Text, codes, length,
  leb, ltb, ◌==◌, if◌then◌else◌, take, nat_eq, text_eq,
}
use docker.Common.Results.{Result, ok, err}
use docker.Common.Maps.{lookup, insert, erase}
use docker.Common.Strings.{has_prefix, has_byte}
use docker.Common.Strings.Split.{split}
use docker.Config.Parsers.{parse_repository_tag}

abbrev pub default_tag : Text
default_tag = codes "latest"

-- The identifiers of images by their tags.
abbrev pub Repository : Type 0
Repository = List (Text × Text)

abbrev pub Repositories : Type 0
Repositories = List (Text × Repository)

-- The store, the file that it is saved in (`none`: there is no file), and the two pools, whose
-- channels are numbered.
pub record TagStore : Type 0 where
  pub repositories : Repositories
  pub file : Option Repositories
  pub pulling_pool : List (Text × ℕ)
  pub pushing_pool : List (Text × ℕ)
  pub next_channel : ℕ

-- Whether the file can be read and written.
pub record Disk : Type 0 where
  pub readable : Bool
  pub writable : Bool

pub data TagError : Type 0 where
  read_failed write_failed empty_repo_name empty_tag_name : TagError
  illegal_tag_name no_such_repository no_such_image : Text → TagError
  no_such_tag : Text → Text → TagError
  unknown_pool_type : TagError

-- Decoding a map of JSON into a map: its entries replace those there are.
unfoldable pub decode_into : Repositories → Repositories → Repositories
unfolding insert
decode_into [] m = m
decode_into ((name, r) ∷ file) m = insert name r (decode_into file m)

unfoldable pub save : Disk → TagStore → TagStore × Option TagError
save disk s =
    if disk.writable
    then (record s { file = some s.repositories }, none)
    else (s, some write_failed)

unfoldable pub reload_from : Disk → Option Repositories → TagStore → TagStore × Option TagError
unfolding decode_into
reload_from disk none s = (s, some read_failed)
reload_from disk (some file) s =
    if disk.readable
    then (record s { repositories = decode_into file s.repositories }, none)
    else (s, some read_failed)

unfoldable pub reload : Disk → TagStore → TagStore × Option TagError
unfolding reload_from
reload disk s = reload_from disk s.file s

-- NewTagStore: the file is read, or made where there is none.
unfoldable pub new_tag_store : Disk → Option Repositories → Option TagStore
unfolding save reload
new_tag_store disk file =
    let s : TagStore = record {
      repositories = [];
      file = file;
      pulling_pool = [];
      pushing_pool = [];
      next_channel = 0;
    } in
    let saved = save disk s in
    let loaded = reload disk s in
    elim file [
      | none ↦ elim saved.1 [ none ↦ some saved.0 | some e ↦ none ]
      | some r ↦ elim loaded.1 [ none ↦ some loaded.0 | some e ↦ none ]
    ]

unfoldable pub validate_repo_name : Text → Option TagError
validate_repo_name [] = some empty_repo_name
validate_repo_name (c ∷ name) = none

unfoldable pub validate_tag_name : Text → Option TagError
unfolding has_byte
validate_tag_name [] = some empty_tag_name
validate_tag_name (c ∷ name) =
    if has_byte b'/' (c ∷ name) || has_byte b':' (c ∷ name)
    then some (illegal_tag_name (c ∷ name))
    else none

-- Get: the repository, if there is one, in the store that is reloaded.
unfoldable pub get : Disk → Text → TagStore → TagStore × Result TagError (Option Repository)
get disk repo_name s =
    let (s', failed) = reload disk s in
    elim failed [ some e ↦ (s', err e) | none ↦ (s', ok (lookup repo_name s'.repositories)) ]

-- The first identifier with a prefix, in the order in which the map is walked.
unfoldable pub revision_with : Text → Repository → Option Text
revision_with prefix [] = none
revision_with prefix ((tag, revision) ∷ repo) =
    if has_prefix revision prefix then some revision else revision_with prefix repo

-- The image by its tag, or by the start of its identifier.
unfoldable pub image_in :
    (Text → Result TagError Text) → Text → Option Repository → Result TagError (Option Text)
unfolding revision_with
image_in graph tag_or_id none = ok none
image_in graph tag_or_id (some repo) = elim (lookup tag_or_id repo) [
  | some revision ↦ elim (graph revision) [ err e ↦ err e | ok id ↦ ok (some id) ]
  | none ↦ elim (revision_with tag_or_id repo) [
    | none ↦ ok none
    | some revision ↦ elim (graph revision) [ err e ↦ err e | ok id ↦ ok (some id) ]
  ]
]

unfoldable pub get_image :
    (Text → Result TagError Text)
    → Disk
    → Text
    → Text
    → TagStore
    → TagStore × Result TagError (Option Text)
get_image graph disk repo_name tag_or_id s =
    let (s', repo) = get disk repo_name s in
    (s', elim repo [ err e ↦ err e | ok r ↦ image_in graph tag_or_id r ])

unfoldable pub lookup_image :
    (Text → Result TagError Text) → Disk → Text → TagStore → TagStore × Result TagError Text
lookup_image graph disk name s =
    let (repos, tag) = parse_repository_tag name in
    let (s', image) = get_image graph disk repos (if tag == [] then default_tag else tag) s in
    (s', elim image [ err e ↦ err e | ok none ↦ graph name | ok (some id) ↦ ok id ])

-- `delete(r, tag)`, and the repository too where no tag is left.
unfoldable pub delete_tag : Text → Text → Repository → Repositories → Repositories
delete_tag repo_name tag r m =
    let rest = erase tag r in
    if length rest == 0 then erase repo_name m else insert repo_name rest m

-- Delete, on the reloaded store.
unfoldable pub delete_in : Text → Text → Repositories → Result TagError Repositories
delete_in repo_name tag m = elim (lookup repo_name m) [
  | none ↦ err (no_such_repository repo_name)
  | some r ↦ if tag == [] then ok (erase repo_name m) else elim (lookup tag r) [
    | none ↦ err (no_such_tag repo_name tag)
    | some id ↦ ok (delete_tag repo_name tag r m)
  ]
]

unfoldable pub delete_saved :
    Disk → TagStore → Result TagError Repositories → TagStore × Result TagError Bool
delete_saved disk s (err e) = (s, err e)
delete_saved disk s (ok m) =
    let (saved, failed) = save disk (record s { repositories = m }) in
    (saved, elim failed [ none ↦ ok true | some e ↦ err e ])

unfoldable pub delete_reloaded :
    Disk → Text → Text → TagStore × Option TagError → TagStore × Result TagError Bool
unfolding delete_saved
delete_reloaded disk repo_name tag (s, some e) = (s, err e)
delete_reloaded disk repo_name tag (s, none) =
    delete_saved disk s (delete_in repo_name tag s.repositories)

unfoldable pub delete : Disk → Text → Text → TagStore → TagStore × Result TagError Bool
unfolding delete_reloaded
delete disk repo_name tag s = delete_reloaded disk repo_name tag (reload disk s)

-- The tag in the repository, which is made where it is missing. The flag `force` is only read
-- behind a test that never holds.
unfoldable pub set_in : Text → Text → Text → Repositories → Repositories
set_in repo_name tag id m = elim (lookup repo_name m) [
  | none ↦ insert repo_name ((tag, id) ∷ []) m
  | some r ↦ insert repo_name (insert tag id r) m
]

unfoldable pub set_reloaded :
    Disk → Text → Text → Text → TagStore × Option TagError → TagStore × Option TagError
set_reloaded disk repo_name tag id (s, some e) = (s, some e)
set_reloaded disk repo_name tag id (s, none) =
    save disk (record s { repositories = set_in repo_name tag id s.repositories })

-- Set, once the image is found.
unfoldable pub set_image : Disk → Text → Text → Text → TagStore → TagStore × Option TagError
unfolding set_reloaded
set_image disk repo_name tag id s =
    let tag' = if tag == [] then default_tag else tag in
    elim (validate_repo_name repo_name) [
      | some e ↦ (s, some e)
      | none ↦ elim (validate_tag_name tag') [
        | some e ↦ (s, some e)
        | none ↦ set_reloaded disk repo_name tag' id (reload disk s)
      ]
    ]

unfoldable pub set :
    (Text → Result TagError Text)
    → Disk
    → Text
    → Text
    → Text
    → Bool
    → TagStore
    → TagStore × Option TagError
set graph disk repo_name tag image_name force s =
    let (s', image) = lookup_image graph disk image_name s in
    elim image [ err e ↦ (s', some e) | ok id ↦ set_image disk repo_name tag id s' ]
