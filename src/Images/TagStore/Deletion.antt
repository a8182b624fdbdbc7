-- ===== src/Images/TagStore/Deletion.antt =====
-- DeleteAll on names of repositories with a host and a port.
use docker.Common.{◌≡◌, refl, ap, ◌∙◌, none, some, List, ◌∷◌, ◌++◌, Text, text_eq, nat_eq}
use docker.Common.Results.{err}
use docker.Common.Maps.{lookup}
use docker.Common.Strings.Split.{IsFree, split-append, split-cons}
use docker.Images.TagStore.{
  Repositories, TagStore, TagError, no_such_repository, delete, delete_in, delete_saved,
}
use docker.Images.TagStore.Names.{name_parts, delete_names}
use docker.Images.TagStore.Calls.{working, IsSynced, loaded, lookup-loaded, delete-after}

name_parts-first :
    (host rest : Text) → IsFree b':' host → (name_parts (host ++ (b':' ∷ rest))).0 ≡ host
unfolding name_parts
name_parts-first host rest f =
    let (w, ws, e) = split-cons b':' rest in rw (split-append b':' host rest f, e, name_parts) refl

delete_in_missing :
    (host tag : Text) (m : Repositories)
    → lookup host m ≡ none
    → delete_in host tag m ≡ err (no_such_repository host)
unfolding delete_in
delete_in_missing host tag m e = rw (e, delete_in) refl

delete_missing :
    (s : TagStore) (v : IsSynced s) (host tag : Text)
    → lookup host s.repositories ≡ none
    → (delete working host tag s).1 ≡ err (no_such_repository host)
unfolding delete_saved
delete_missing s v host tag e =
    let e' = lookup-loaded s v host ∙ e in
    rw (delete-after s v host tag, delete_in_missing host tag (loaded v.saved s).repositories e')
      refl

delete_names_failed :
    (s : TagStore) (name : Text) (names : List Text) {e : TagError}
    → (delete working (name_parts name).0 (name_parts name).1 s).1 ≡ err e
    → (delete_names working (name ∷ names) s).1 ≡ some e
unfolding delete_names
delete_names_failed s name names e = rw (e, delete_names) refl

-- On a store in step with its file and a disk that works, the loop of DeleteAll over names whose
-- first has a colon in its repository, such as host:5000/app, fails with an unknown repository
-- where the host itself is none.
pub delete_names-no_such_repository :
    (s : TagStore) (v : IsSynced s) (host rest : Text) (names : List Text)
    → IsFree b':' host
    → lookup host s.repositories ≡ none
    → (delete_names working ((host ++ (b':' ∷ rest)) ∷ names) s).1 ≡ some (no_such_repository host)
delete_names-no_such_repository s v host rest names f e =
    let name = host ++ (b':' ∷ rest) in
    delete_names_failed s name names (
      ap (λ (h : Text). (delete working h (name_parts name).1 s).1) (name_parts-first host rest f)
      ∙ delete_missing s v host (name_parts name).1 e)
