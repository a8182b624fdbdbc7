-- ===== src/Config/Runconfig/Compare/Laws.antt =====
-- What Compare finds equal, and what it does not look at.
use docker.Common.{
  ◌≡◌, ◌↔◌, refl, ap, subst, Bool, true, false, ◌&&◌, ◌||◌, not, some, List, [], ◌∷◌, Text, length,
  arith, ◌==◌, ==_iff, ==_refl, nat_eq, text_eq,
}
use docker.Common.Maps.{contains}
use docker.Config.Runconfig.{Config, ports_in, int_eq, bool_eq}
use docker.Config.Runconfig.Compare.{same_texts, same_options, same_lengths, same_contents, compare}
use docker.Config.Runconfig.Compare.Keys.{distinct, same_keys, keys_within_same, length_same}

same_texts-eq : (xs ys : List Text) → length xs ≡ length ys → same_texts xs ys ≡ true → xs ≡ ys
unfolding same_texts
same_texts-eq [] [] n h = refl
same_texts-eq [] (y ∷ ys) n h = absurd (omega arith)
same_texts-eq (x ∷ xs) [] n h = absurd (omega arith)
same_texts-eq (x ∷ xs) (y ∷ ys) n h = ground (arith, ==_iff x y, same_texts-eq xs ys (omega arith))

same_texts_refl : (xs : List Text) → same_texts xs xs ≡ true
unfolding same_texts
same_texts_refl [] = refl
same_texts_refl (x ∷ xs) = ground (arith, ==_refl x, same_texts_refl xs)

and_true : (a b : Bool) → (a && b) ≡ true → (a ≡ true) × (b ≡ true)
and_true a b h = ground arith

and_both : (a b : Bool) → a ≡ true → b ≡ true → (a && b) ≡ true
and_both a b e f = ground (arith, e, f)

-- The exposed ports and the volumes are Go maps.
abbrev pub HasKeys : Config → Type 0
HasKeys a = (distinct (ports_in a.exposed_ports) ≡ true) × (distinct a.volumes ≡ true)

abbrev pub SameKeys : List Text → List Text → Type 0
SameKeys ks s = (k : Text) → contains k ks ≡ contains k s

-- What two configurations have in common that are the same to Compare. Their host names,
-- their images and the rest of their fields may differ.
pub record Agrees (a b : Config) : Type 0 where
  pub no_stdin : (a.open_stdin ≡ false) × (b.open_stdin ≡ false)
  pub attach_stdout : a.attach_stdout ≡ b.attach_stdout
  pub attach_stderr : a.attach_stderr ≡ b.attach_stderr
  pub user : a.user ≡ b.user
  pub memory : a.memory ≡ b.memory
  pub memory_swap : a.memory_swap ≡ b.memory_swap
  pub cpu_shares : a.cpu_shares ≡ b.cpu_shares
  pub tty : a.tty ≡ b.tty
  pub cmd : a.cmd ≡ b.cmd
  pub env : a.env ≡ b.env
  pub port_specs : a.port_specs ≡ b.port_specs
  pub entrypoint : a.entrypoint ≡ b.entrypoint
  pub exposed_ports : SameKeys (ports_in a.exposed_ports) (ports_in b.exposed_ports)
  pub volumes : SameKeys a.volumes b.volumes

Options : Config → Config → Type 0
Options a b =
    (a.attach_stdout ≡ b.attach_stdout)
    × (a.attach_stderr ≡ b.attach_stderr)
    × (a.user ≡ b.user)
    × (a.memory ≡ b.memory)
    × (a.memory_swap ≡ b.memory_swap)
    × (a.cpu_shares ≡ b.cpu_shares)
    × (a.tty ≡ b.tty)

same_options-Options : (a b : Config) → same_options a b ≡ true → Options a b
unfolding same_options Options
same_options-Options a b h =
    let (out, h1) = and_true _ _ h in
    let (error, h2) = and_true _ _ h1 in
    let (user, h3) = and_true _ _ h2 in
    let (memory, h4) = and_true _ _ h3 in
    let (swap, h5) = and_true _ _ h4 in
    let (shares, h6) = and_true _ _ h5 in
    let (stdin, tty) = and_true _ _ h6 in
    (
      (==_iff a.attach_stdout b.attach_stdout).0 out,
      (==_iff a.attach_stderr b.attach_stderr).0 error,
      (==_iff a.user b.user).0 user,
      (==_iff a.memory b.memory).0 memory,
      (==_iff a.memory_swap b.memory_swap).0 swap,
      (==_iff a.cpu_shares b.cpu_shares).0 shares,
      (==_iff a.tty b.tty).0 tty,
    )

Contents : Config → Config → Type 0
Contents a b =
    (a.cmd ≡ b.cmd)
    × (a.env ≡ b.env)
    × (a.port_specs ≡ b.port_specs)
    × (a.entrypoint ≡ b.entrypoint)
    × SameKeys (ports_in a.exposed_ports) (ports_in b.exposed_ports)
    × SameKeys a.volumes b.volumes

same_contents-Contents :
    (a b : Config) → HasKeys a → same_lengths a b ≡ true → same_contents a b ≡ true → Contents a b
unfolding same_lengths same_contents Contents
same_contents-Contents a b (ports_d, volumes_d) n h =
    let (cmd_n, n1) = and_true _ _ n in
    let (env_n, n2) = and_true _ _ n1 in
    let (specs_n, n3) = and_true _ _ n2 in
    let (ports_n, n4) = and_true _ _ n3 in
    let (entry_n, volumes_n) = and_true _ _ n4 in
    let (cmd, h1) = and_true _ _ h in
    let (env, h2) = and_true _ _ h1 in
    let (specs, h3) = and_true _ _ h2 in
    let (ports, h4) = and_true _ _ h3 in
    let (entry, volumes) = and_true _ _ h4 in
    (
      same_texts-eq a.cmd b.cmd ((==_iff (length a.cmd) (length b.cmd)).0 cmd_n) cmd,
      same_texts-eq a.env b.env ((==_iff (length a.env) (length b.env)).0 env_n) env,
      same_texts-eq a.port_specs b.port_specs
          ((==_iff (length a.port_specs) (length b.port_specs)).0 specs_n) specs,
      same_texts-eq a.entrypoint b.entrypoint
          ((==_iff (length a.entrypoint) (length b.entrypoint)).0 entry_n) entry,
      (λ k. same_keys (ports_in a.exposed_ports) (ports_in b.exposed_ports) k ports_d ports (
          (==_iff (length (ports_in a.exposed_ports)) (length (ports_in b.exposed_ports))).0
            ports_n)),
      (λ k.
          same_keys a.volumes b.volumes k volumes_d volumes
            ((==_iff (length a.volumes) (length b.volumes)).0 volumes_n)),
    )

compared_agree : (a b : Config) → HasKeys a → compare (some a) (some b) ≡ true → Agrees a b
unfolding compare Options Contents
compared_agree a b keys h =
    let (stdin, h1) = and_true (not (a.open_stdin || b.open_stdin)) _ h in
    let (options, h2) = and_true _ _ h1 in
    let (lengths, contents) = and_true _ _ h2 in
    let o = same_options-Options a b options in
    let c = same_contents-Contents a b keys lengths contents in
    record {
      no_stdin = (ground (arith, stdin), ground (arith, stdin));
      attach_stdout = o.0;
      attach_stderr = o.1;
      user = o.2;
      memory = o.3;
      memory_swap = o.4;
      cpu_shares = o.5;
      tty = o.6;
      cmd = c.0;
      env = c.1;
      port_specs = c.2;
      entrypoint = c.3;
      exposed_ports = c.4;
      volumes = c.5;
    }

options-same : (a b : Config) → Agrees a b → same_options a b ≡ true
unfolding same_options
options-same a b g =
    let closed : a.open_stdin ≡ b.open_stdin = ground (arith, g.no_stdin.0, g.no_stdin.1) in
    rw
      (
        (==_iff a.attach_stdout b.attach_stdout).1 g.attach_stdout,
        (==_iff a.attach_stderr b.attach_stderr).1 g.attach_stderr,
        (==_iff a.user b.user).1 g.user,
        (==_iff a.memory b.memory).1 g.memory,
        (==_iff a.memory_swap b.memory_swap).1 g.memory_swap,
        (==_iff a.cpu_shares b.cpu_shares).1 g.cpu_shares,
        (==_iff a.open_stdin b.open_stdin).1 closed,
        (==_iff a.tty b.tty).1 g.tty,
      )
      refl

texts-same : (xs ys : List Text) → xs ≡ ys → same_texts xs ys ≡ true
texts-same xs ys e = subst (λ l. same_texts xs l ≡ true) e (same_texts_refl xs)

lengths-same : (xs ys : List Text) → xs ≡ ys → (length xs == length ys) ≡ true
lengths-same xs ys e = (==_iff (length xs) (length ys)).1 (ap (λ l. length l) e)

contents-same :
    (a b : Config)
    → HasKeys a
    → HasKeys b
    → Agrees a b
    → (same_lengths a b && same_contents a b) ≡ true
unfolding same_lengths same_contents
contents-same a b (ports_d, volumes_d) (ports_d', volumes_d') g =
    rw
      (
        lengths-same a.cmd b.cmd g.cmd,
        lengths-same a.env b.env g.env,
        lengths-same a.port_specs b.port_specs g.port_specs,
        (==_iff (length (ports_in a.exposed_ports)) (length (ports_in b.exposed_ports))).1
            (length_same _ _ ports_d ports_d' g.exposed_ports),
        lengths-same a.entrypoint b.entrypoint g.entrypoint,
        (==_iff (length a.volumes) (length b.volumes)).1
            (length_same _ _ volumes_d volumes_d' g.volumes),
        texts-same a.cmd b.cmd g.cmd,
        texts-same a.env b.env g.env,
        texts-same a.port_specs b.port_specs g.port_specs,
        keys_within_same (ports_in a.exposed_ports) (ports_in b.exposed_ports) g.exposed_ports,
        texts-same a.entrypoint b.entrypoint g.entrypoint,
        keys_within_same a.volumes b.volumes g.volumes,
      )
      refl

-- Compare finds two configurations, whose exposed ports and volumes are sets, equal exactly if neither
-- has its standard input open and they have the same attached output and error streams, user, memory,
-- swap, shares, terminal, command, environment, port specifications and entry point, and the same sets
-- of exposed ports and of volumes; it does not look at their other fields, such as the host name.
pub compare-Agrees :
    (a b : Config) → HasKeys a → HasKeys b → (compare (some a) (some b) ≡ true) ↔ Agrees a b
unfolding compare
compare-Agrees a b k k' = (
  compared_agree a b k,
  λ g.
      and_both (not (a.open_stdin || b.open_stdin)) _ (ground (arith, g.no_stdin.0, g.no_stdin.1))
        (and_both _ _ (options-same a b g) (contents-same a b k k' g)),
)
