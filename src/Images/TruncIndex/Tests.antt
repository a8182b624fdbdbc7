-- ===== src/Images/TruncIndex/Tests.antt =====
-- Tries as lists, which meet the laws of go-patricia, and the index over them.
use docker.Common.{
  ◌≡◌, refl, false, ◌&&◌, not, inl, inr, List, [], ◌∷◌, Text, codes, arith, Bool-cases, ==_iff,
  if◌then◌else◌, text_eq, nat_eq,
}
use docker.Common.Results.{ok, err}
use docker.Common.Maps.{contains, add, remove, contains-add, contains-remove}
use docker.Common.Strings.{has_prefix}
use docker.Images.TruncIndex.{
  AreDistinct, Patricia, TruncIndex, no_such_id, add_id, visit_all, found, get,
}
use docker.Images.TruncIndex.Lookup.{IsValid, add_id-IsValid, Answers, get-Answers}

with_prefix : Text → List Text → List Text
with_prefix p [] = []
with_prefix p (s ∷ ss) = let rest = with_prefix p ss in if has_prefix s p then add s rest else rest

contains-with_prefix :
    (p j : Text) (ss : List Text)
    → contains j (with_prefix p ss) ≡ (has_prefix j p && contains j ss)
unfolding with_prefix contains
contains-with_prefix p j [] = ground arith
contains-with_prefix p j (s ∷ ss) =
    ground (arith, contains-add s j (with_prefix p ss), ==_iff s j, contains-with_prefix p j ss)

add-AreDistinct : (s : Text) (ss : List Text) → AreDistinct ss → AreDistinct (add s ss)
unfolding add
add-AreDistinct s ss d = elim (Bool-cases (contains s ss)) [
  | inl old ↦ rw (old, add) d
  | inr new ↦ rw (new, add) (new, d)
]

with_prefix-AreDistinct : (p : Text) (ss : List Text) → AreDistinct (with_prefix p ss)
unfolding with_prefix
with_prefix-AreDistinct p [] = tt
with_prefix-AreDistinct p (s ∷ ss) = elim (Bool-cases (has_prefix s p)) [
  | inl match ↦
      rw (match, with_prefix) (add-AreDistinct s (with_prefix p ss) (with_prefix-AreDistinct p ss))
  | inr other ↦ rw (other, with_prefix) (with_prefix-AreDistinct p ss)
]

nothing_held : (s : Text) → contains s [] ≡ false
unfolding contains
nothing_held s = refl

abbrev lists : Patricia
lists = record {
  Trie = List Text;
  new_trie = [];
  insert = λ s t. (add s t, not (contains s t));
  delete = λ s t. (remove s t, contains s t);
  holds = contains;
  visited = with_prefix;
  holds-new = nothing_held;
  inserted = λ s t. refl;
  holds-insert = contains-add;
  deleted = λ s t. refl;
  holds-delete = contains-remove;
  contains-visited = contains-with_prefix;
  visited-AreDistinct = with_prefix-AreDistinct;
}

abbrev two : TruncIndex lists
two = record { trie = codes "ab1" ∷ codes "ab2" ∷ []; ids = codes "ab1" ∷ codes "ab2" ∷ [] }

two-IsValid : IsValid lists two
unfolding contains
two-IsValid = record { same = λ j. refl; not_empty = refl }

unique : get lists (codes "ab2") two ≡ ok (codes "ab2")
unfolding get visit_all found with_prefix add contains
unique = refl

ambiguous : get lists (codes "ab") two ≡ err (no_such_id (codes "ab"))
unfolding get visit_all found with_prefix add contains
ambiguous = refl

get-Answers_example : Answers lists (codes "ab2") two (codes "ab1") (get lists (codes "ab2") two)
get-Answers_example = get-Answers lists b'a' (codes "b2") (codes "ab1") two two-IsValid

add_id-IsValid_example : IsValid lists (add_id lists (codes "c") two).0
add_id-IsValid_example = add_id-IsValid lists (codes "c") two two-IsValid
