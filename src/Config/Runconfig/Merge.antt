-- ===== src/Config/Runconfig/Merge.antt =====
-- The configuration of an image merged into that of the user: runconfig/merge.go. Merge writes to
-- the user's configuration, and to the image's where the two share their map of ports.
pub mod Laws
use docker.Common.{
  ℕ, Bool, true, false, ◌||◌, Option, none, some, List, [], ◌∷◌, ◌++◌, Text, length, ◌==◌,
  if◌then◌else◌, ltb, nat_eq, text_eq,
}
use docker.Common.Int.{ℤ, pos}
use docker.Common.Results.{Result, ok, err}
use docker.Common.Maps.{contains, add}
use docker.Common.Strings.Split.{split}
use docker.Config.Ports.{Port, PortSet, SpecError, parse_port_specs}
use docker.Config.Runconfig.{Config, ports_in, int_eq}

-- The two configurations, and whether the user's map of exposed ports is the image's.
pub record Pair : Type 0 where
  pub user_conf : Config
  pub image_conf : Config
  pub shared : Bool

abbrev pub or_text : Text → Text → Text
or_text mine theirs = if mine == [] then theirs else mine

abbrev pub or_int : ℤ → ℤ → ℤ
or_int mine theirs = if mine == pos 0 then theirs else mine

unfoldable pub merge_limits : Config → Config → Config
merge_limits image user = record user {
  user = or_text user.user image.user;
  memory = or_int user.memory image.memory;
  memory_swap = or_int user.memory_swap image.memory_swap;
  cpu_shares = or_int user.cpu_shares image.cpu_shares;
}

-- The keys of the first map put into the second.
unfoldable pub add_all : List Text → List Text → List Text
add_all [] s = s
add_all (k ∷ ks) s = add_all ks (add k s)

-- Keys put into the map of exposed ports, which is made if it is nil.
unfoldable pub expose : PortSet → Config → Config
expose ports c = record c { exposed_ports = some (add_all ports (ports_in c.exposed_ports)) }

abbrev pub is_some : Option PortSet → Bool
is_some none = false
is_some (some s) = true

unfoldable pub merge_exposed : Config → Config → Pair
merge_exposed image user =
    if length (ports_in user.exposed_ports) == 0
    then record {
      user_conf = record user { exposed_ports = image.exposed_ports };
      image_conf = image;
      shared = is_some image.exposed_ports;
    }
    else record {
      user_conf =
          if is_some image.exposed_ports then expose (ports_in image.exposed_ports) user else user;
      image_conf = image;
      shared = false;
    }

-- Ports put into the user's map, and so into the image's where it is the same.
unfoldable pub expose_in : PortSet → Pair → Pair
expose_in ports p = record p {
  user_conf = expose ports p.user_conf;
  image_conf = if p.shared then expose ports p.image_conf else p.image_conf;
}

unfoldable pub drop_specs : Pair → Pair
drop_specs p = record p { user_conf = record (p.user_conf) { port_specs = [] } }

-- The ports of a list of specifications, exposed; an error leaves the maps.
unfoldable pub expose_specs : (Text → Bool) → List Text → Pair → Pair × Option SpecError
expose_specs is_ip specs p = elim (parse_port_specs is_ip specs) [
  | err e ↦ (expose_in [] p, some e)
  | ok (ports, bindings) ↦ (expose_in ports p, none)
]

unfoldable pub merge_user_specs : (Text → Bool) → Pair → Pair × Option SpecError
merge_user_specs is_ip p =
    if ltb 0 (length p.user_conf.port_specs)
    then (let (q, failed) = expose_specs is_ip p.user_conf.port_specs p in
        (elim failed [ none ↦ drop_specs q | some e ↦ q ], failed))
    else (p, none)

unfoldable pub merge_image_specs : (Text → Bool) → Pair → Pair × Option SpecError
merge_image_specs is_ip p =
    if ltb 0 (length p.image_conf.port_specs)
    then expose_specs is_ip p.image_conf.port_specs p
    else (p, none)

-- strings.Split(env, "=")[0]
unfoldable pub env_key : Text → Text
env_key env = elim (split b'=' env) [ [] ↦ [] | key ∷ parts ↦ key ]

unfoldable pub has_key : Text → List Text → Bool
has_key key [] = false
has_key key (env ∷ envs) = key == env_key env || has_key key envs

-- The loop over the image's environment: a variable whose key is there already is left out.
unfoldable pub merge_env : List Text → List Text → List Text
merge_env [] user = user
merge_env (env ∷ image) user =
    merge_env image (if has_key (env_key env) user then user else user ++ (env ∷ []))

unfoldable pub merge_command : Config → Config → Config
merge_command image user =
    if length user.entrypoint == 0
    then record user {
      cmd = if length user.cmd == 0 then image.cmd else user.cmd;
      entrypoint = image.entrypoint;
    }
    else user

unfoldable pub merge_rest : Config → Config → Config
merge_rest image user =
    let c = merge_command image (record user {
      env = if length user.env == 0 then image.env else merge_env image.env user.env;
    }) in
    record c {
      working_dir = or_text user.working_dir image.working_dir;
      volumes =
          if length user.volumes == 0 then image.volumes else add_all image.volumes user.volumes;
    }

unfoldable pub finish : Pair → Pair
finish p = record p { user_conf = merge_rest p.image_conf p.user_conf }

-- What follows the user's port specifications.
unfoldable pub merge_image : (Text → Bool) → Pair × Option SpecError → Pair × Option SpecError
merge_image is_ip (p, some e) = (p, some e)
merge_image is_ip (p, none) =
    let (q, failed) = merge_image_specs is_ip p in
    (elim failed [ none ↦ finish q | some e ↦ q ], failed)

-- Merge: the configurations it leaves, and its error.
unfoldable pub merge : (Text → Bool) → Config → Config → Pair × Option SpecError
merge is_ip user image =
    merge_image is_ip (merge_user_specs is_ip (merge_exposed image (merge_limits image user)))
