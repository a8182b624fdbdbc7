-- ===== src/Config/Runconfig/Compare.antt =====
-- Whether two configurations are the same for the cache of the builder: runconfig/compare.go.
mod Keys
pub mod Laws
use docker.Common.{
  ℕ, Bool, true, false, ◌&&◌, ◌||◌, not, Option, none, some, List, [], ◌∷◌, Text, length, ◌==◌,
  nat_eq, text_eq,
}
use docker.Common.Maps.{contains}
use docker.Config.Runconfig.{Config, ports_in, int_eq, bool_eq}

-- The loop over the indices of the first list, whose length is that of the second.
unfoldable pub same_texts : List Text → List Text → Bool
same_texts [] ys = true
same_texts (x ∷ xs) [] = false
same_texts (x ∷ xs) (y ∷ ys) = x == y && same_texts xs ys

-- The loop over the keys of the first map.
unfoldable pub keys_within : List Text → List Text → Bool
unfolding contains
keys_within [] s = true
keys_within (k ∷ ks) s = contains k s && keys_within ks s

unfoldable pub same_options : Config → Config → Bool
same_options a b =
    a.attach_stdout == b.attach_stdout
    && (a.attach_stderr == b.attach_stderr
        && (a.user == b.user
            && (a.memory == b.memory
                && (a.memory_swap == b.memory_swap
                    && (a.cpu_shares == b.cpu_shares
                        && (a.open_stdin == b.open_stdin && a.tty == b.tty))))))

unfoldable pub same_lengths : Config → Config → Bool
same_lengths a b =
    length a.cmd == length b.cmd
    && (length a.env == length b.env
        && (length a.port_specs == length b.port_specs
            && (length (ports_in a.exposed_ports) == length (ports_in b.exposed_ports)
                && (length a.entrypoint == length b.entrypoint
                    && length a.volumes == length b.volumes))))

unfoldable pub same_contents : Config → Config → Bool
same_contents a b =
    same_texts a.cmd b.cmd
    && (same_texts a.env b.env
        && (same_texts a.port_specs b.port_specs
            && (keys_within (ports_in a.exposed_ports) (ports_in b.exposed_ports)
                && (same_texts a.entrypoint b.entrypoint && keys_within a.volumes b.volumes))))

unfoldable pub compare : Option Config → Option Config → Bool
compare none b = false
compare (some a) none = false
compare (some a) (some b) =
    not (a.open_stdin || b.open_stdin)
    && (same_options a b && (same_lengths a b && same_contents a b))
