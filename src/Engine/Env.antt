-- ===== src/Engine/Env.antt =====
-- The environment of a job: engine/env.go. An entry is a text `key=value`, and the last one counts.
pub mod Laws
mod Tests
use docker.Common.{
  ℕ, zero, suc, ◌+◌, Bool, true, false, ◌||◌, not, Option, none, some, List, [], ◌∷◌, ◌++◌, Text,
  codes, ◌==◌, if◌then◌else◌, nat_eq, text_eq,
}
use docker.Common.Int.{ℤ, pos, negsuc}
use docker.Common.Maps.{lookup, insert}
use docker.Common.Strings.{to_lower}
use docker.Config.Parsers.{cut_first}
use docker.Config.Hosts.{atoi, print_int}
use mathlib.Core.List.{reverse}

abbrev pub Env : Type 0
Env = List Text

-- The value after an entry, which is `value` where the entry has no `=` or another key.
unfoldable pub value_after : Text → Text → Option (Text × Text) → Text
value_after key value none = value
value_after key value (some (k, v)) = if k == key then v else value

unfoldable pub get_from : Text → Text → Env → Text
unfolding value_after
get_from key value [] = value
get_from key value (kv ∷ env) = get_from key (value_after key value (cut_first b'=' kv)) env

-- `Get`
unfoldable pub get : Text → Env → Text
unfolding get_from
get key env = get_from key [] env

-- `Set`
abbrev pub set : Text → Text → Env → Env
set key value env = env ++ ((key ++ (b'=' ∷ value)) ∷ [])

unfoldable pub map_from : List (Text × Text) → Env → Option (List (Text × Text))
map_from m [] = some m
map_from m (kv ∷ env) = elim (cut_first b'=' kv) [
  | none ↦ none
  | some (k, v) ↦ map_from (insert k v m) env
]

-- `Map`, where none is that it panics, on an entry without `=`.
unfoldable pub env_map : Env → Option (List (Text × Text))
unfolding map_from
env_map env = map_from [] env

abbrev has_entry : Text → List (Text × Text) → Bool
has_entry key m = elim (lookup key m) [ none ↦ false | some v ↦ true ]

unfoldable pub exists_key : Text → Env → Option Bool
unfolding env_map
exists_key key env = elim (env_map env) [ none ↦ none | some m ↦ some (has_entry key m) ]

abbrev size : List (Text × Text) → ℕ
size [] = 0
size (kv ∷ m) = suc (size m)

unfoldable pub len : Env → Option ℕ
unfolding env_map
len env = elim (env_map env) [ none ↦ none | some m ↦ some (size m) ]

-- strings.Trim(s, " \t")
unfoldable pub trim_blanks_left : Text → Text
trim_blanks_left [] = []
trim_blanks_left (c ∷ s) =
    let rest = trim_blanks_left s in if c == b' ' || c == 9 then rest else c ∷ s

unfoldable pub trim_blanks : Text → Text
unfolding trim_blanks_left
trim_blanks s = reverse (trim_blanks_left (reverse (trim_blanks_left s)))

unfoldable pub is_true : Text → Bool
unfolding trim_blanks to_lower
is_true value =
    let s : Text = to_lower (trim_blanks value) in
    not (
      s == [] || (s == codes "0" || (s == codes "no" || (s == codes "false" || s == codes "none"))))

unfoldable pub get_bool : Text → Env → Bool
unfolding is_true
get_bool key env = is_true (get key env)

abbrev pub set_bool : Text → Bool → Env → Env
set_bool key value env = if value then set key (codes "1") env else set key (codes "0") env

unfoldable pub int_of : Option ℤ → ℤ
int_of none = pos 0
int_of (some n) = n

-- `GetInt64`
unfoldable pub get_int : Text → Env → ℤ
unfolding int_of trim_blanks atoi
get_int key env = int_of (atoi (trim_blanks (get key env)))

unfoldable pub set_int : Text → ℤ → Env → Env
unfolding print_int
set_int key value env = set key (print_int value) env

abbrev values_of : Option (List Text) → List Text
values_of none = []
values_of (some values) = values

unfoldable pub multi_from : List (Text × List Text) → Env → Option (List (Text × List Text))
multi_from m [] = some m
multi_from m (kv ∷ env) = elim (cut_first b'=' kv) [
  | none ↦ none
  | some (k, v) ↦ multi_from (insert k (values_of (lookup k m) ++ (v ∷ [])) m) env
]

-- `MultiMap`
unfoldable pub multi_map : Env → Option (List (Text × List Text))
unfolding multi_from
multi_map env = multi_from [] env

unfoldable pub set_all : Text → List Text → Env → Env
set_all key [] env = env
set_all key (v ∷ values) env = set_all key values (set key v env)

unfoldable pub set_multi : List (Text × List Text) → Env → Env
unfolding set_all
set_multi [] env = env
set_multi ((key, values) ∷ m) env = set_multi m (set_all key values env)

-- `InitMultiMap`
unfoldable pub init_multi_map : List (Text × List Text) → Env
unfolding set_multi
init_multi_map m = set_multi m []
