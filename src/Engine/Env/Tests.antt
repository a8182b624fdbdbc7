-- ===== src/Engine/Env/Tests.antt =====
-- An environment, and the theorems at it.
use docker.Common.{
  ◌≡◌, refl, true, none, some, [], ◌∷◌, codes, ◌==◌, if◌then◌else◌, nat_eq, text_eq,
}
use docker.Common.Int.{negsuc}
use docker.Common.Strings.Decimal.{print_decimal}
use docker.Common.Maps.{lookup, insert}
use docker.Config.Parsers.{cut_first}
use docker.Engine.Env.{Env, get, set, map_from, env_map, get_bool, set_bool, get_int, set_int}
use docker.Engine.Env.Laws.{get-set, get_bool-set_bool, value_or, get-env_map}

abbrev entries : Env
entries = codes "TERM=xterm" ∷ codes "SEED=" ∷ codes "TERM=a=b" ∷ []

last_counts : get (codes "TERM") entries ≡ codes "a=b"
unfolding get cut_first
last_counts = refl

number : get_int (codes "N") (set_int (codes "N") (negsuc 41) entries) ≡ negsuc 41
unfolding get_int set_int get cut_first print_decimal
number = refl

maps : env_map entries ≡ some ((codes "TERM", codes "a=b") ∷ (codes "SEED", []) ∷ [])
unfolding env_map map_from cut_first insert
maps = refl

no_equals_sign : env_map (codes "TERM" ∷ []) ≡ none
unfolding env_map map_from cut_first
no_equals_sign = refl

get-set_example :
    get (codes "SEED") (set (codes "TERM") (codes "vt100") entries)
    ≡ (if codes "TERM" == codes "SEED" then codes "vt100" else get (codes "SEED") entries)
get-set_example =
    get-set (codes "TERM") (codes "SEED") (codes "vt100") entries (refl, (refl, (refl, (refl, tt))))

truth_is_read : get_bool (codes "TERM") (set_bool (codes "TERM") true entries) ≡ true
truth_is_read = get_bool-set_bool (codes "TERM") true entries (refl, (refl, (refl, (refl, tt))))

get-env_map_example :
    get (codes "TERM") entries
    ≡ value_or [] (lookup (codes "TERM") ((codes "TERM", codes "a=b") ∷ (codes "SEED", []) ∷ []))
get-env_map_example =
    get-env_map (codes "TERM") entries ((codes "TERM", codes "a=b") ∷ (codes "SEED", []) ∷ []) maps
