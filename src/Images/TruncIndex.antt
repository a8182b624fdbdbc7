-- ===== src/Images/TruncIndex.antt =====
-- pkg/truncindex/truncindex.go: identifiers by their unique prefixes. The trie is the package
-- go-patricia, outside of the repository: a parameter with the laws that the code relies on.
pub mod Lookup
mod Tests
use docker.Common.{
  ◌≡◌, Bool, true, false, ◌&&◌, ◌||◌, not, Option, none, some, List, [], ◌∷◌, Text, codes, ◌==◌,
  if◌then◌else◌, nat_eq, text_eq,
}
use docker.Common.Results.{Result, ok, err}
use docker.Common.Maps.{contains, add, remove}
use docker.Common.Strings.{has_prefix, has_byte}

-- A list in which no text stands twice.
abbrev pub AreDistinct : List Text → Type 0
AreDistinct [] = Unit {0}
AreDistinct (s ∷ ss) = (contains s ss ≡ false) × AreDistinct ss

-- Tries of texts. `insert` and `delete` answer whether they changed the trie, and the visit of a
-- subtree meets the texts with the prefix, each of them once.
pub record Patricia : Type 1 where
  pub Trie : Type 0
  pub new_trie : Trie
  pub insert : Text → Trie → Trie × Bool
  pub delete : Text → Trie → Trie × Bool
  pub holds : Text → Trie → Bool
  pub visited : Text → Trie → List Text
  pub holds-new : (s : Text) → holds s new_trie ≡ false
  pub inserted : (s : Text) (t : Trie) → (insert s t).1 ≡ not (holds s t)
  pub holds-insert : (s j : Text) (t : Trie) → holds j (insert s t).0 ≡ (s == j || holds j t)
  pub deleted : (s : Text) (t : Trie) → (delete s t).1 ≡ holds s t
  pub holds-delete : (s j : Text) (t : Trie) → holds j (delete s t).0 ≡ (not (s == j) && holds j t)
  pub contains-visited :
      (p j : Text) (t : Trie) → contains j (visited p t) ≡ (has_prefix j p && holds j t)
  pub visited-AreDistinct : (p : Text) (t : Trie) → AreDistinct (visited p t)

pub data IndexError : Type 0 where
  illegal_character no_id : IndexError
  id_exists failed_to_insert no_such_id : Text → IndexError

-- The visits: `none` is the error at the second text, and the empty text is none so far.
unfoldable pub visit_all : List Text → Text → Option Text
visit_all [] id = some id
visit_all (prefix ∷ prefixes) [] = visit_all prefixes prefix
visit_all (prefix ∷ prefixes) (c ∷ id) = none

unfoldable pub found : Text → Option Text → Result IndexError Text
found s none = err (no_such_id s)
found s (some []) = err (no_such_id s)
found s (some (c ∷ id)) = ok (c ∷ id)

module _ (patricia : Patricia) where
  open patricia use {Trie, new_trie, insert, delete, visited}

  pub record TruncIndex : Type 0 where
    pub trie : Trie
    pub ids : List Text

  unfoldable pub add_id : Text → TruncIndex → TruncIndex × Option IndexError
  unfolding has_byte contains add
  add_id id idx =
      if has_byte b' ' id
      then (idx, some illegal_character)
      else (if id == []
          then (idx, some no_id)
          else (if contains id idx.ids then (idx, some (id_exists id)) else (
            record { trie = (insert id idx.trie).0; ids = add id idx.ids },
            if (insert id idx.trie).1 then none else some (failed_to_insert id),
          )))

  -- NewTruncIndex, which drops the errors.
  unfoldable pub new_trunc_index : List Text → TruncIndex → TruncIndex
  new_trunc_index [] idx = idx
  new_trunc_index (id ∷ ids) idx = new_trunc_index ids (add_id id idx).0

  unfoldable pub empty_index : TruncIndex
  empty_index = record { trie = new_trie; ids = [] }

  unfoldable pub delete_id : Text → TruncIndex → TruncIndex × Option IndexError
  unfolding contains remove
  delete_id id idx =
      if not (contains id idx.ids) || id == [] then (idx, some (no_such_id id)) else (
        record { trie = (delete id idx.trie).0; ids = remove id idx.ids },
        if (delete id idx.trie).1 then none else some (no_such_id id),
      )

  unfoldable pub get : Text → TruncIndex → Result IndexError Text
  unfolding visit_all found
  get [] idx = err no_id
  get (c ∷ s) idx = found (c ∷ s) (visit_all (visited (c ∷ s) idx.trie) [])
