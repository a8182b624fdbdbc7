-- ===== src/Config/Runconfig/Merge/Laws.antt =====
-- What Merge keeps of both configurations: the environment, the ports, and the image's own.
use docker.Common.{
  ◌≡◌, refl, sym, ap, ◌∙◌, Bool, true, false, ◌||◌, not, Option, none, some, inl, inr, List, [],
  ◌∷◌, ◌++◌, Text, length, arith, Bool-cases, ◌==◌, ==_iff, if◌then◌else◌, ltb, nat_eq, text_eq,
}
use mathlib.Core.List.{append_assoc, append-nil}
use docker.Common.Results.{Result, ok, err}
use docker.Config.Ports.{PortSet, PortMap, SpecError, parse_port_specs}
use docker.Config.Runconfig.{Config, ports_in}
use docker.Config.Runconfig.Merge.{
  Pair, merge_limits, is_some, merge_exposed, expose_in, drop_specs, expose_specs, merge_user_specs,
  merge_image_specs, env_key, has_key, merge_env, finish, merge_image, merge,
}

has_key-append :
    (key env : Text) (envs : List Text)
    → has_key key (envs ++ (env ∷ [])) ≡ (has_key key envs || key == env_key env)
unfolding has_key
has_key-append key env [] = ground arith
has_key-append key env (e ∷ envs) = ground (arith, has_key-append key env envs)

has_key-put :
    (key env : Text) (user : List Text)
    → has_key key (if has_key (env_key env) user then user else user ++ (env ∷ []))
      ≡ (has_key key user || key == env_key env)
has_key-put key env user = elim (Bool-cases (has_key (env_key env) user)) [
  | inl found ↦ ground (arith, has_key_same key (env_key env) user found)
  | inr new ↦ rw new (has_key-append key env user)
]
  where
    has_key_same :
        (key k : Text) (user : List Text)
        → has_key k user ≡ true
        → has_key key user ≡ (has_key key user || key == k)
    has_key_same key k user found = ground (arith, ==_iff key k)

or_assoc : (a b c : Bool) → ((a || b) || c) ≡ (a || (b || c))
or_assoc a b c = ground arith

merge_env-has_key :
    (key : Text) (image user : List Text)
    → has_key key (merge_env image user) ≡ (has_key key user || has_key key image)
unfolding merge_env has_key
merge_env-has_key key [] user = ground arith
merge_env-has_key key (env ∷ image) user =
    merge_env-has_key key image (if has_key (env_key env) user then user else user ++ (env ∷ []))
    ∙ ap (λ (b : Bool). b || has_key key image) (has_key-put key env user)
    ∙ or_assoc (has_key key user) (key == env_key env) (has_key key image)

merge_env-prefix :
    (image user : List Text) → (rest : List Text) × (merge_env image user ≡ user ++ rest)
unfolding merge_env
merge_env-prefix [] user = ([], sym (append-nil user))
merge_env-prefix (env ∷ image) user = elim (Bool-cases (has_key (env_key env) user)) [
  | inl found ↦ rw (found, merge_env) (merge_env-prefix image user)
  | inr new ↦
      let (rest, e) = merge_env-prefix image (user ++ (env ∷ [])) in
      (env ∷ rest, rw (new, merge_env) (e ∙ append_assoc user (env ∷ []) rest))
]

-- The environment that Merge makes starts with the user's, unchanged, and has exactly the keys of
-- the user's and of the image's.
merge_env_lem :
    (image user : List Text) (key : Text)
    → ((rest : List Text) × (merge_env image user ≡ user ++ rest))
      × (has_key key (merge_env image user) ≡ (has_key key user || has_key key image))
merge_env_lem image user key = (merge_env-prefix image user, merge_env-has_key key image user)

-- Nothing more is written to the configuration of the image.
abbrev IsKept : Config → Pair → Type 0
IsKept image p = (p.image_conf ≡ image) × (p.shared ≡ false)

module _ (image : Config) where
  expose_in-IsKept :
      (ports : PortSet) (p : Pair) → IsKept image p → IsKept image (expose_in ports p)
  unfolding expose_in
  expose_in-IsKept ports p k = (simp (k.1, k.0) refl, k.1)

  drop_specs-IsKept : (p : Pair) → IsKept image p → IsKept image (drop_specs p)
  unfolding drop_specs
  drop_specs-IsKept p k = k

  finish-IsKept : (p : Pair) → IsKept image p → IsKept image (finish p)
  unfolding finish
  finish-IsKept p k = k

  after-IsKept :
      (f : Pair → Pair) (failed : Option SpecError) (p : Pair)
      → IsKept image p
      → IsKept image (f p)
      → IsKept image (elim failed [ none ↦ f p | some e ↦ p ])
  after-IsKept f none p k h = h
  after-IsKept f (some e) p k h = k

module _ (is_ip : Text → Bool) (image : Config) where
  expose_specs-IsKept :
      (specs : List Text) (p : Pair) → IsKept image p → IsKept image (expose_specs is_ip specs p).0
  unfolding expose_specs
  expose_specs-IsKept specs p k = cases (parse_port_specs is_ip specs)
    where
      cases :
          (r : Result SpecError (PortSet × PortMap))
          → IsKept image
              (elim r as (λ _. Pair × Option SpecError) [
                | err e ↦ (expose_in [] p, some e)
                | ok (ports, bindings) ↦ (expose_in ports p, none)
              ]).0
      cases (err e) = expose_in-IsKept image [] p k
      cases (ok (ports, bindings)) = expose_in-IsKept image ports p k

  merge_user_specs-IsKept : (p : Pair) → IsKept image p → IsKept image (merge_user_specs is_ip p).0
  unfolding merge_user_specs
  merge_user_specs-IsKept p k = elim (Bool-cases (ltb 0 (length p.user_conf.port_specs))) [
    | inl specs ↦
        let q = expose_specs is_ip p.user_conf.port_specs p in
        let h = expose_specs-IsKept p.user_conf.port_specs p k in
        rw (specs, merge_user_specs)
          (after-IsKept image drop_specs q.1 q.0 h (drop_specs-IsKept image q.0 h))
    | inr absent ↦ rw (absent, merge_user_specs) k
  ]

  merge_image_specs-IsKept :
      (p : Pair) → IsKept image p → IsKept image (merge_image_specs is_ip p).0
  unfolding merge_image_specs
  merge_image_specs-IsKept p k = elim (Bool-cases (ltb 0 (length p.image_conf.port_specs))) [
    | inl specs ↦ rw (specs, merge_image_specs) (expose_specs-IsKept p.image_conf.port_specs p k)
    | inr absent ↦ rw (absent, merge_image_specs) k
  ]

  merge_image-IsKept :
      (r : Pair × Option SpecError) → IsKept image r.0 → IsKept image (merge_image is_ip r).0
  unfolding merge_image
  merge_image-IsKept (p, some e) k = k
  merge_image-IsKept (p, none) k =
      let q = merge_image_specs is_ip p in
      let h = merge_image_specs-IsKept p k in
      after-IsKept image finish q.1 q.0 h (finish-IsKept image q.0 h)

  merge_exposed-IsKept :
      (user : Config)
      → (not (length (ports_in user.exposed_ports) == 0) || not (is_some image.exposed_ports))
        ≡ true
      → IsKept image (merge_exposed image user)
  unfolding merge_exposed
  merge_exposed-IsKept user free = elim (Bool-cases (length (ports_in user.exposed_ports) == 0)) [
    | inl empty ↦ rw (empty, merge_exposed) (refl, ground arith)
    | inr given ↦ rw (given, merge_exposed) (refl, refl)
  ]

  -- Where the user exposes a port, or the image has no map of exposed ports, Merge leaves the
  -- image's configuration as it is, errors included.
  pub merge-image_conf :
      (user : Config)
      → (not (length (ports_in user.exposed_ports) == 0) || not (is_some image.exposed_ports))
        ≡ true
      → (merge is_ip user image).0.image_conf ≡ image
  unfolding merge merge_limits
  merge-image_conf user free =
      (merge_image-IsKept (merge_user_specs is_ip (merge_exposed image (merge_limits image user))) (
        merge_user_specs-IsKept (merge_exposed image (merge_limits image user))
          (merge_exposed-IsKept (merge_limits image user) free))).0
