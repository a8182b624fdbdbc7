-- ===== src/Config/Runconfig/Tests.antt =====
-- Configurations that are compared and merged, and the theorems at concrete ones.
use docker.Common.{
  ◌≡◌, ◌↔◌, refl, Bool, true, false, none, some, [], ◌∷◌, Text, codes, nat_eq, text_eq,
}
use docker.Common.Int.{pos}
use docker.Common.Maps.{contains, add, lookup, insert}
use docker.Common.Strings.{has_byte}
use docker.Common.Strings.Split.{split, cut_last}
use docker.Common.Strings.Decimal.{parse_uint}
use docker.Config.Parsers.{part_parser, field, fill_template}
use docker.Config.Ports.{
  parse_port_specs, parse_specs, parse_port_spec, cut_proto, pad_spec, check_fields, check_parts,
  is_port, parse_port, validate_proto, new_port, add_binding, bindings_of,
}
use docker.Config.Runconfig.{Config, ports_in}
use docker.Config.Runconfig.Compare.{compare}
use docker.Config.Runconfig.Compare.Laws.{Agrees, compare-Agrees}
use docker.Config.Runconfig.Merge.{
  merge_limits, add_all, expose, merge_exposed, expose_in, drop_specs, expose_specs,
  merge_user_specs, merge_image_specs, finish, merge_image, merge,
}
use docker.Config.Runconfig.Merge.Laws.{merge-image_conf}

abbrev any_ip : Text → Bool
any_ip s = true

abbrev base : Config
base = record {
  hostname = codes "h";
  domainname = [];
  user = codes "www";
  memory = pos 0;
  memory_swap = pos 0;
  cpu_shares = pos 0;
  cpuset = [];
  attach_stdin = false;
  attach_stdout = true;
  attach_stderr = true;
  port_specs = [];
  exposed_ports = some (codes "80/tcp" ∷ []);
  tty = false;
  open_stdin = false;
  stdin_once = false;
  env = codes "A=1" ∷ [];
  cmd = codes "run" ∷ [];
  image = codes "img";
  volumes = codes "/data" ∷ [];
  working_dir = codes "/";
  entrypoint = [];
  network_disabled = false;
  on_build = [];
}

-- No exposed port, but a specification of one.
abbrev published : Config
published = record base { exposed_ports = none; port_specs = codes "53" ∷ [] }

-- The port of the user is put into the image's map, which the two share.
shared_map :
    ports_in (merge any_ip published base).0.image_conf.exposed_ports
    ≡ codes "53/tcp" ∷ codes "80/tcp" ∷ []
unfolding merge merge_limits merge_exposed merge_user_specs merge_image_specs merge_image
    expose_specs expose_in expose add_all drop_specs finish ports_in parse_port_specs parse_specs
    parse_port_spec cut_proto cut_last pad_spec has_byte split part_parser fill_template insert
    check_fields check_parts field lookup is_port parse_port parse_uint validate_proto new_port
    add_binding add contains bindings_of
shared_map = refl

compare-Agrees_example :
    (compare (some base) (some (record base { hostname = [] })) ≡ true)
    ↔ Agrees base (record base { hostname = [] })
unfolding ports_in contains
compare-Agrees_example =
    compare-Agrees base (record base { hostname = [] }) (refl, refl) (refl, refl)

merge-image_conf_example : (merge any_ip base published).0.image_conf ≡ published
unfolding ports_in
merge-image_conf_example = merge-image_conf any_ip published base refl
