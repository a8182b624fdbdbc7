-- ===== src/Images/TagStore/Names.antt =====
-- The names of an image: ByID, ImageName, DeleteAll and GetRepoRefs of graph/tags.go, with
-- TruncateID of utils/utils.go. The maps are walked in the order of their lists.
use docker.Common.{
  Bool, true, false, Option, none, some, List, [], ◌∷◌, ◌++◌, Text, ltb, take, ◌==◌, if◌then◌else◌,
  text_eq, nat_eq,
}
use docker.Common.Results.{ok, err}
use docker.Common.Maps.{lookup, insert}
use docker.Common.Strings.Split.{split}
use docker.Images.TagStore.{Repository, Repositories, TagStore, Disk, TagError, delete}

-- The order of Go's strings.
unfoldable pub text_leb : Text → Text → Bool
text_leb [] t = true
text_leb (a ∷ s) [] = false
text_leb (a ∷ s) (b ∷ t) =
    let rest = text_leb s t in if ltb a b then true else (if a == b then rest else false)

unfoldable pub put_sorted : Text → List Text → List Text
unfolding text_leb
put_sorted s [] = s ∷ []
put_sorted s (t ∷ ts) = if text_leb s t then s ∷ t ∷ ts else t ∷ put_sorted s ts

-- sort.Strings
unfoldable pub sort_texts : List Text → List Text
unfolding put_sorted
sort_texts [] = []
sort_texts (s ∷ ss) = put_sorted s (sort_texts ss)

abbrev pub ById : Type 0
ById = List (Text × List Text)

unfoldable pub add_name : Text → Text → ById → ById
unfolding sort_texts
add_name id name by_id = elim (lookup id by_id) [
  | none ↦ insert id (name ∷ []) by_id
  | some names ↦ insert id (sort_texts (names ++ (name ∷ []))) by_id
]

unfoldable pub add_tags : Text → Repository → ById → ById
unfolding add_name
add_tags repo_name [] by_id = by_id
add_tags repo_name ((tag, id) ∷ r) by_id =
    add_tags repo_name r (add_name id (repo_name ++ (b':' ∷ tag)) by_id)

unfoldable pub by_id_from : Repositories → ById → ById
unfolding add_tags
by_id_from [] by_id = by_id
by_id_from ((repo_name, r) ∷ m) by_id = by_id_from m (add_tags repo_name r by_id)

unfoldable pub by_id : TagStore → ById
unfolding by_id_from
by_id s = by_id_from s.repositories []

-- TruncateID: the first 12 bytes, or all of them.
unfoldable pub truncate_id : Text → Text
truncate_id id = take 12 id

unfoldable pub image_name : Text → TagStore → Text
unfolding truncate_id
image_name id s = elim (lookup id (by_id s)) [
  | none ↦ truncate_id id
  | some [] ↦ truncate_id id
  | some (name ∷ names) ↦ name
]

-- The names of each image, by its short identifier, in the order of the walk.
unfoldable pub add_refs : Text → Repository → ById → ById
unfolding truncate_id
add_refs repo_name [] refs = refs
add_refs repo_name ((tag, id) ∷ r) refs =
    let short_id = truncate_id id in
    let old : List Text = elim (lookup short_id refs) [ none ↦ [] | some names ↦ names ] in
    add_refs repo_name r (insert short_id (old ++ ((repo_name ++ (b':' ∷ tag)) ∷ [])) refs)

unfoldable pub get_repo_refs : Repositories → ById → ById
unfolding add_refs
get_repo_refs [] refs = refs
get_repo_refs ((repo_name, r) ∷ m) refs = get_repo_refs m (add_refs repo_name r refs)

-- The repository and the tag that DeleteAll reads in a name: what stands before its first colon,
-- and between that and the next.
unfoldable pub name_parts : Text → Text × Text
name_parts name = elim (split b':' name) [
  | [] ↦ (name, [])
  | repo_name ∷ [] ↦ (name, [])
  | repo_name ∷ tag ∷ parts ↦ (repo_name, tag)
]

unfoldable pub delete_names : Disk → List Text → TagStore → TagStore × Option TagError
unfolding name_parts
delete_names disk [] s = (s, none)
delete_names disk (name ∷ names) s =
    let (s', answer) = delete disk (name_parts name).0 (name_parts name).1 s in
    let rest = delete_names disk names s' in
    elim answer [ err e ↦ (s', some e) | ok deleted ↦ rest ]

unfoldable pub delete_all : Disk → Text → TagStore → TagStore × Option TagError
unfolding delete_names by_id
delete_all disk id s = elim (lookup id (by_id s)) [
  | none ↦ (s, none)
  | some names ↦ delete_names disk names s
]
