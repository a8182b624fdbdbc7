-- ===== src/Images/TagStore/Calls.antt =====
-- Any sequence of calls, on a disk that works, against a function from names to images.
use docker.Common.{
  ◌≡◌, refl, sym, ap, ◌∙◌, Bool, true, false, ◌&&◌, Option, none, some, inl, inr, List, [], ◌∷◌,
  Text, Option-cases, ◌==◌, if◌then◌else◌, text_eq, nat_eq,
}
use mathlib.Core.Path.{fun_ext}
use docker.Common.Results.{Result, ok, err}
use docker.Common.Maps.{lookup}
use docker.Images.TagStore.{
  Repositories, TagStore, Disk, TagError, default_tag, decode_into, save, reload, reload_from,
  set_in, set_reloaded, set_image, delete_in, delete, delete_saved, delete_reloaded,
  validate_repo_name, validate_tag_name,
}
use docker.Images.TagStore.Repositories.{
  tag_of, tag_in, lookup-decode_into, tag_of-set_in, reaches, Deleted, delete_in-Deleted,
}

abbrev pub working : Disk
working = record { readable = true; writable = true }

-- The file is there and says what the store says.
pub record IsSynced (s : TagStore) : Type 0 where
  pub saved : Repositories
  pub is_file : s.file ≡ some saved
  pub same : (name : Text) → lookup name saved ≡ lookup name s.repositories

abbrev pub names : TagStore → Text → Text → Option Text
names s name t = tag_of name t s.repositories

-- What is loaded by a call.
abbrev pub loaded : Repositories → TagStore → TagStore
loaded saved s = record s { repositories = decode_into saved s.repositories }

reload-loaded : (s : TagStore) (v : IsSynced s) → reload working s ≡ (loaded v.saved s, none)
unfolding reload reload_from
reload-loaded s v = ap (λ (o : Option Repositories). reload_from working o s) v.is_file

merged {ℓ} : {A : Type ℓ} (o p : Option A) → o ≡ p → (elim o [ none ↦ p | some r ↦ some r ]) ≡ p
merged none p e = refl
merged (some r) p e = e

pub lookup-loaded :
    (s : TagStore) (v : IsSynced s) (name : Text)
    → lookup name (loaded v.saved s).repositories ≡ lookup name s.repositories
lookup-loaded s v name =
    lookup-decode_into name v.saved s.repositories
    ∙ merged (lookup name v.saved) (lookup name s.repositories) (v.same name)

names-loaded :
    (s : TagStore) (v : IsSynced s) (name t : Text)
    → names (loaded v.saved s) name t ≡ names s name t
names-loaded s v name t = ap (tag_in t) (lookup-loaded s v name)

-- The function that a set makes of the names before it: a name that is not valid changes nothing.
abbrev pub is_accepted : Text → Text → Bool
is_accepted repo tag = elim (validate_repo_name repo) [
  | some e ↦ false
  | none ↦ elim (validate_tag_name tag) [ some e ↦ false | none ↦ true ]
]

abbrev pub or_default : Text → Text
or_default tag = if tag == [] then default_tag else tag

abbrev pub set_name : Text → Text → Text → (Text → Text → Option Text) → Text → Text → Option Text
set_name repo tag id f name t =
    if is_accepted repo (or_default tag) && (repo == name && or_default tag == t)
    then some id
    else f name t

abbrev pub delete_name : Text → Text → (Text → Text → Option Text) → Text → Text → Option Text
delete_name repo tag f name t = if repo == name && reaches tag t then none else f name t

-- The store is in step with its file, and its names are a function.
abbrev pub Refines : TagStore → (Text → Text → Option Text) → Type 0
Refines s f = IsSynced s × (names s ≡ f)

synced_names :
    (s : TagStore) (f : Text → Text → Option Text)
    → IsSynced s
    → ((name t : Text) → names s name t ≡ f name t)
    → Refines s f
synced_names s f v h = (v, fun_ext λ name. fun_ext λ t. h name t)

saved-IsSynced :
    (s : TagStore) (m : Repositories) → IsSynced (record s { repositories = m; file = some m })
saved-IsSynced s m = record { saved = m; is_file = refl; same = λ name. refl }

module _ (s : TagStore) (v : IsSynced s) where
  -- The store after a call that saves.
  abbrev pub after : Repositories → TagStore
  after m = record s { repositories = m; file = some m }

  set_image-after :
      (repo tag id : Text)
      → set_reloaded working repo tag id (reload working s)
        ≡ (after (set_in repo tag id (loaded v.saved s).repositories), none)
  unfolding set_reloaded save
  set_image-after repo tag id = ap (set_reloaded working repo tag id) (reload-loaded s v)

  rejected :
      (repo tag id : Text)
      → is_accepted repo (or_default tag) ≡ false
      → Refines s (set_name repo tag id (names s))
  rejected repo tag id e = synced_names s (set_name repo tag id (names s)) v (λ name t. rw e refl)

  pub set_image-Refines :
      (repo tag id : Text)
      → Refines (set_image working repo tag id s).0 (set_name repo tag id (names s))
  unfolding set_image
  set_image-Refines repo tag id = elim (Option-cases (validate_repo_name repo)) [
    | inr (x, e) ↦ rw (e, set_image) (rejected repo tag id (rw (e, is_accepted) refl))
    | inl e ↦ elim (Option-cases (validate_tag_name (or_default tag))) [
      | inr (x, e') ↦ rw (e, e', set_image) (rejected repo tag id (rw (e, e', is_accepted) refl))
      | inl e' ↦
          let accepted : is_accepted repo (or_default tag) ≡ true = rw (e, e', is_accepted) refl in
          let m = set_in repo (or_default tag) id (loaded v.saved s).repositories in
          let done : Refines (after m) (set_name repo tag id (names s)) =
            synced_names (after m) (set_name repo tag id (names s)) (saved-IsSynced s m) (λ name t.
              tag_of-set_in repo (or_default tag) id name t (loaded v.saved s).repositories
              ∙ ap (λ (o : Option Text). if repo == name && or_default tag == t then some id else o)
                  (names-loaded s v name t)
              ∙ rw accepted refl) in
          rw (e, e', set_image-after repo (or_default tag) id, set_image) done
    ]
  ]

  pub delete-after :
      (repo tag : Text)
      → delete working repo tag s
        ≡ delete_saved working
            (loaded v.saved s)
            (delete_in repo tag (loaded v.saved s).repositories)
  unfolding delete delete_reloaded
  delete-after repo tag = ap (delete_reloaded working repo tag) (reload-loaded s v)

  loaded-IsSynced : IsSynced (loaded v.saved s)
  loaded-IsSynced = record {
    saved = v.saved;
    is_file = v.is_file;
    same = λ name. v.same name ∙ sym (lookup-loaded s v name);
  }

  delete_saved-Refines :
      (repo tag : Text) (r : Result TagError Repositories)
      → ((name t : Text) → Deleted repo tag name t (loaded v.saved s).repositories r)
      → Refines (delete_saved working (loaded v.saved s) r).0 (delete_name repo tag (names s))
  unfolding delete_saved save
  delete_saved-Refines repo tag (ok m) d =
      synced_names (after m) (delete_name repo tag (names s)) (saved-IsSynced s m) (λ name t.
        d name t
        ∙ ap (λ (o : Option Text). if repo == name && reaches tag t then none else o)
            (names-loaded s v name t))
  delete_saved-Refines repo tag (err e) d =
      synced_names (loaded v.saved s) (delete_name repo tag (names s)) loaded-IsSynced (λ name t.
        d name t
        ∙ ap (λ (o : Option Text). if repo == name && reaches tag t then none else o)
            (names-loaded s v name t))

  pub delete-Refines :
      (repo tag : Text) → Refines (delete working repo tag s).0 (delete_name repo tag (names s))
  delete-Refines repo tag = rw (delete-after repo tag) (
      delete_saved-Refines repo tag (delete_in repo tag (loaded v.saved s).repositories)
        (λ name t. delete_in-Deleted repo tag name t (loaded v.saved s).repositories))

-- A call of the store, and what it does to a function from names to images.
pub data Call : Type 0 where
  set_call : Text → Text → Text → Call
  delete_call : Text → Text → Call

unfoldable pub run : List Call → TagStore → TagStore
run [] s = s
run (set_call repo tag id ∷ calls) s = run calls (set_image working repo tag id s).0
run (delete_call repo tag ∷ calls) s = run calls (delete working repo tag s).0

unfoldable pub replay : List Call → (Text → Text → Option Text) → Text → Text → Option Text
replay [] f = f
replay (set_call repo tag id ∷ calls) f = replay calls (set_name repo tag id f)
replay (delete_call repo tag ∷ calls) f = replay calls (delete_name repo tag f)

-- From a store in step with its file, and on a disk that works, any sequence of calls of Set and
-- Delete leaves a store in step with its file, whose names stand for the images that the same calls
-- give on a function: a set with a valid name changes that one name, a deletion takes away one tag
-- of a repository, or all with no tag, and calls that fail change nothing.
pub run-Refines :
    (calls : List Call) (s : TagStore) → IsSynced s → Refines (run calls s) (replay calls (names s))
unfolding run replay
run-Refines [] s v = (v, refl)
run-Refines (set_call repo tag id ∷ calls) s v =
    let step = set_image-Refines s v repo tag id in
    rw (sym step.1) (run-Refines calls (set_image working repo tag id s).0 step.0)
run-Refines (delete_call repo tag ∷ calls) s v =
    let step = delete-Refines s v repo tag in
    rw (sym step.1) (run-Refines calls (delete working repo tag s).0 step.0)
