-- ===== src/Images/TagStore/Tests.antt =====
-- A store with a tagged image, and the theorems at it.
use docker.Common.{◌≡◌, refl, some, [], ◌∷◌, codes, text_eq, nat_eq}
use docker.Common.Maps.{lookup, insert}
use docker.Images.TagStore.{Repositories, TagStore, no_such_repository}
use docker.Images.TagStore.Names.{by_id, image_name, delete_names}
use docker.Images.TagStore.Calls.{
  working, IsSynced, names, Refines, set_call, delete_call, run, replay, run-Refines,
}
use docker.Images.TagStore.Deletion.{delete_names-no_such_repository}
use docker.Images.TagStore.Pools.{pool_add, IsExclusive, here, next, adds, Reaches-IsExclusive}

abbrev base : Repositories
base = (codes "base", (codes "v1", codes "1234567890abcdef") ∷ []) ∷ []

abbrev store : TagStore
store = record {
  repositories = base;
  file = some base;
  pulling_pool = (codes "base", 0) ∷ [];
  pushing_pool = [];
  next_channel = 1;
}

store-IsSynced : IsSynced store
store-IsSynced = record { saved = base; is_file = refl; same = λ name. refl }

names_of_image : image_name (codes "1234567890abcdef") store ≡ codes "base:v1"
unfolding image_name by_id lookup insert
names_of_image = refl

run-Refines_example :
    Refines
      (run (set_call (codes "x") [] (codes "77") ∷ delete_call (codes "base") [] ∷ []) store)
      (replay
        (set_call (codes "x") [] (codes "77") ∷ delete_call (codes "base") [] ∷ [])
        (names store))
run-Refines_example =
    run-Refines (set_call (codes "x") [] (codes "77") ∷ delete_call (codes "base") [] ∷ []) store
      store-IsSynced

Reaches-IsExclusive_example :
    IsExclusive (codes "base") (pool_add (codes "push") (codes "base") store).0
unfolding lookup
Reaches-IsExclusive_example =
    Reaches-IsExclusive (codes "base") (next here (adds (codes "push") (codes "base"))) refl

delete_names-no_such_repository_example :
    (delete_names working (codes "localhost:5000/app:v1" ∷ []) store).1
    ≡ some (no_such_repository (codes "localhost"))
unfolding lookup
delete_names-no_such_repository_example =
    delete_names-no_such_repository store store-IsSynced (codes "localhost") (codes "5000/app:v1")
      [] (refl, (refl, (refl, (refl, (refl, (refl, (refl, (refl, (refl, tt))))))))) refl
