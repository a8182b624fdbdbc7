-- ===== src/Engine/Env/Laws.antt =====
-- What is set is what is got.
use docker.Common.{
  ◌≡◌, ◌∙◌, refl, sym, ap, Bool, true, false, Option, none, some, inl, inr, List, [], ◌∷◌, ◌++◌,
  Text, codes, arith, Bool-cases, Option-cases, ◌==◌, ==_refl, if◌then◌else◌, nat_eq, text_eq,
}
use docker.Common.Maps.{lookup, insert, lookup-insert}
use docker.Common.Strings.{to_lower}
use docker.Common.Strings.Split.{IsFree}
use docker.Config.Parsers.{cut_first}
use docker.Config.Parsers.Laws.{cut_first-append}
use docker.Engine.Env.{
  Env, value_after, get_from, get, set, map_from, env_map, trim_blanks_left, trim_blanks, is_true,
  get_bool, set_bool,
}

get_from-append :
    (key value : Text) (env : Env) (kv : Text)
    → get_from key value (env ++ (kv ∷ []))
      ≡ value_after key (get_from key value env) (cut_first b'=' kv)
unfolding get_from
get_from-append key value [] kv = refl
get_from-append key value (e ∷ env) kv =
    get_from-append key (value_after key value (cut_first b'=' e)) env kv

-- A value that is set under a key without a `=` is got under that key, and under every other key
-- what was got before.
pub get-set :
    (key other value : Text) (env : Env)
    → IsFree b'=' key
    → get other (set key value env) ≡ (if key == other then value else get other env)
unfolding get value_after
get-set key other value env f =
    get_from-append other [] env (key ++ (b'=' ∷ value))
    ∙ ap (λ c. value_after other (get_from other [] env) c) (cut_first-append b'=' key value f)

same_key : (key a b : Text) → (if key == key then a else b) ≡ a
same_key key a b = rw (==_refl key) refl

-- A truth value that is set under a key without a `=` is got under that key.
pub get_bool-set_bool :
    (key : Text) (b : Bool) (env : Env) → IsFree b'=' key → get_bool key (set_bool key b env) ≡ b
unfolding get_bool is_true trim_blanks trim_blanks_left to_lower
get_bool-set_bool key true env f =
    ap is_true {y = codes "1"}
      (get-set key key (codes "1") env f ∙ same_key key (codes "1") (get key env))
get_bool-set_bool key false env f =
    ap is_true {y = codes "0"}
      (get-set key key (codes "0") env f ∙ same_key key (codes "0") (get key env))

abbrev pub value_or : Text → Option Text → Text
value_or value none = value
value_or value (some v) = v

map_from-some :
    (kv k v : Text) (env : Env) (m : List (Text × Text))
    → cut_first b'=' kv ≡ some (k, v)
    → map_from m (kv ∷ env) ≡ map_from (insert k v m) env
unfolding map_from
map_from-some kv k v env m c = rw (c, map_from) refl

map_from-none :
    (kv : Text) (env : Env) (m : List (Text × Text))
    → cut_first b'=' kv ≡ none
    → map_from m (kv ∷ env) ≡ none
unfolding map_from
map_from-none kv env m c = rw (c, map_from) refl

abbrev map_or : List (Text × Text) → Option (List (Text × Text)) → List (Text × Text)
map_or m none = m
map_or m (some m') = m'

value-insert :
    (key k v value : Text) (m : List (Text × Text))
    → value_or [] (lookup key m) ≡ value
    → value_or [] (lookup key (insert k v m)) ≡ value_after key value (some (k, v))
unfolding value_after
value-insert key k v value m h =
    ap (value_or []) (lookup-insert k key v m)
    ∙ (elim (Bool-cases (k == key)) [ inl here ↦ rw here refl | inr other ↦ rw other h ])

map_from-get :
    (key value : Text) (env : Env) (m m' : List (Text × Text))
    → value_or [] (lookup key m) ≡ value
    → map_from m env ≡ some m'
    → get_from key value env ≡ value_or [] (lookup key m')
unfolding get_from map_from value_after
map_from-get key value [] m m' h e = sym h ∙ ap (λ o. value_or [] (lookup key (map_or m o))) e
map_from-get key value (kv ∷ env) m m' h e = elim (Option-cases (cut_first b'=' kv)) [
  | inl c ↦ absurd (ground (arith, sym (map_from-none kv env m c) ∙ e))
  | inr ((k, v), c) ↦ rw c (
      map_from-get key (value_after key value (some (k, v))) env (insert k v m) m'
        (value-insert key k v value m h) (sym (map_from-some kv k v env m c) ∙ e))
]

-- Where Map does not panic, which it does on an entry without a `=`, Get finds what it maps the key
-- to, or the empty text.
pub get-env_map :
    (key : Text) (env : Env) (m : List (Text × Text))
    → env_map env ≡ some m
    → get key env ≡ value_or [] (lookup key m)
unfolding get env_map lookup
get-env_map key env m e = map_from-get key [] env [] m refl e
