-- ===== src/Storage/Mounts/Refinement.antt =====
-- A device is mounted once in the kernel, however many use it, and until the last is done.
use docker.Common.{
  ℕ, zero, suc, ◌≡◌, ◌∙◌, refl, sym, ap, subst, Bool, true, Option, none, some, inl, inr, List, [],
  ◌∷◌, Text, arith, Bool-cases, ◌==◌, ==_refl, if◌then◌else◌, nat_eq, text_eq,
}
use docker.Common.Maps.{lookup, lookup-insert}
use docker.Storage.Metadata.{DevInfo, DeviceSet, DeviceError, unmount_error, World, lookup_device}
use docker.Storage.Devices.Removal.{deactivate_device, unmount}
use docker.Storage.Mounts.{put, mount_device, unmount_deactivated, unmount_last, unmount_device}
use docker.Storage.Devices.Kernel.{
  SameDevices, deactivate_device-Same, Activated, activate-Activated,
}
use docker.Storage.Mounts.Branches.{
  IsWorking, mount_active_done, mount_first, mount_again, unmount_more, unmount_one, unmount_none,
}

-- What the users of one device see: nothing is mounted, or a path is, with as many more users.
pub data Use : Type 0 where
  unused : Use
  used : Text → ℕ → Use

abbrev pub used_more : Text → Use → Use
used_more path unused = used path 0
used_more path (used p n) = if path == p then used p (suc n) else used p n

abbrev pub used_less : Use → Use
used_less unused = unused
used_less (used p zero) = unused
used_less (used p (suc n)) = used p n

-- The mounts of the kernel, on top of those of others.
abbrev pub mounted : Use → List Text → List Text
mounted unused others = others
mounted (used p n) others = p ∷ others

abbrev pub Shows : Use → DevInfo → Type 0
Shows unused info = info.mount_count ≡ 0
Shows (used p n) info = (info.mount_count ≡ suc n) × (info.mount_path ≡ p)

pub record IsUsed (hash : Text) (others : List Text) (u : Use) (s : DeviceSet) : Type 0 where
  pub info : DevInfo
  pub found : lookup hash s.devices ≡ some info
  pub same : info.hash ≡ hash
  pub shows : Shows u info
  pub mounts : s.pool.mounts ≡ mounted u others

pub lookup_known :
    (hash : Text) (s : DeviceSet) {info : DevInfo}
    → lookup hash s.devices ≡ some info
    → lookup_device hash s ≡ (s, some info)
unfolding lookup_device
lookup_known hash s e = rw (e, lookup_device) refl

put_found :
    (hash : Text) (info : DevInfo) (s : DeviceSet)
    → info.hash ≡ hash
    → lookup hash (put info s).devices ≡ some info
put_found hash info s e =
    lookup-insert info.hash hash info s.devices ∙ rw e (rw (==_refl hash) refl)

pub put-IsUsed :
    {hash : Text} {others : List Text} {u : Use} (info : DevInfo) (s : DeviceSet)
    → info.hash ≡ hash
    → Shows u info
    → s.pool.mounts ≡ mounted u others
    → IsUsed hash others u (put info s)
put-IsUsed {hash = hash} info s e shows mounts = record {
  info = info;
  found = put_found hash info s e;
  same = e;
  shows = shows;
  mounts = mounts;
}

deactivated-IsUsed :
    {hash : Text} {others : List Text} (info : DevInfo) (r : DeviceSet × Option DeviceError)
    → info.hash ≡ hash
    → info.mount_count ≡ 0
    → lookup hash r.0.devices ≡ some info
    → r.0.pool.mounts ≡ others
    → IsUsed hash others unused (unmount_deactivated info r).0
unfolding unmount_deactivated
deactivated-IsUsed info (s, none) same none_left found mounts =
    put-IsUsed (record info { mount_path = [] }) s same none_left mounts
deactivated-IsUsed info (s, some e) same none_left found mounts = record {
  info = info;
  found = found;
  same = same;
  shows = none_left;
  mounts = mounts;
}

unmount_top : (path : Text) (others : List Text) → unmount path (path ∷ others) ≡ others
unfolding unmount
unmount_top path others = rw (==_refl path) refl

unmount_last-IsUsed :
    {hash : Text} {others : List Text} (w : World) (info : DevInfo) (s : DeviceSet)
    → w.unmounts ≡ true
    → info.hash ≡ hash
    → info.mount_count ≡ 0
    → lookup hash s.devices ≡ some info
    → s.pool.mounts ≡ info.mount_path ∷ others
    → IsUsed hash others unused (unmount_last w info s).0
unfolding unmount_last
unmount_last-IsUsed {hash = hash} {others = others} w info s works same none_left found mounts =
    subst (λ r. IsUsed hash others unused r.0) (sym (when works))
      (deactivated-IsUsed info (deactivate_device w info.hash after) same none_left
        (ap (λ m. lookup hash m) kept.devices ∙ found) (kept.mounts ∙ taken))
  where
    after : DeviceSet
    after = record s { pool = record (s.pool) { mounts = unmount info.mount_path s.pool.mounts } }

    kept : SameDevices after (deactivate_device w info.hash after).0
    kept = deactivate_device-Same w info.hash after

    when :
        w.unmounts ≡ true
        → (if w.unmounts
            then unmount_deactivated info (deactivate_device w info.hash after)
            else (s, some unmount_error))
          ≡ unmount_deactivated info (deactivate_device w info.hash after)
    when e =
        ap
          (λ (b : Bool).
            if b
            then unmount_deactivated info (deactivate_device w info.hash after)
            else (s, some unmount_error))
          e

    taken : unmount info.mount_path s.pool.mounts ≡ others
    taken = rw mounts (unmount_top info.mount_path others)

module _ (w : World) (k : IsWorking w) {hash : Text} {others : List Text} (s : DeviceSet) where
  pub mount-IsUsed :
      (path l : Text) (u : Use)
      → IsUsed hash others u s
      → IsUsed hash others (used_more path u) (mount_device w hash path l s).0
  unfolding mount_device
  mount-IsUsed path l unused v =
      let a : Activated w v.info s = activate-Activated w v.info s k.activates in
      rw (lookup_known hash s v.found) (
        rw (mount_first w hash path l v.info s v.shows) (
          rw a.equation (
            rw (mount_active_done w path l v.info a.after k) (
              put-IsUsed _ _ v.same (refl, refl) (ap (λ m. path ∷ m) (a.same.mounts ∙ v.mounts))))))
  mount-IsUsed path l (used p n) v = rw (lookup_known hash s v.found) (
      rw (mount_again w hash path l v.info s n v.shows.0) (elim (Bool-cases (path == p)) [
        | inl c ↦
            rw (v.shows.1) (rw c (put-IsUsed _ s v.same (omega (arith, v.shows.0), refl) v.mounts))
        | inr c ↦ rw (v.shows.1) (rw c v)
      ]))

  unmount-IsUsed :
      (u : Use)
      → IsUsed hash others u s
      → IsUsed hash others (used_less u) (unmount_device w hash s).0
  unfolding unmount_device
  unmount-IsUsed unused v =
      rw (lookup_known hash s v.found) (rw (unmount_none w hash v.info s v.shows) v)
  unmount-IsUsed (used p zero) v = rw (lookup_known hash s v.found) (
      rw (unmount_one w hash v.info s v.shows.0) (
        unmount_last-IsUsed w _ _ k.unmounts v.same (omega (arith, v.shows.0))
          (put_found hash _ s v.same) (v.mounts ∙ ap (λ q. q ∷ others) (sym v.shows.1))))
  unmount-IsUsed (used p (suc n)) v = rw (lookup_known hash s v.found) (
      rw (unmount_more w hash v.info s n v.shows.0)
        (put-IsUsed _ s v.same ((omega (arith, v.shows.0)), v.shows.1) v.mounts))

-- What the users of a device call.
pub data MountCall : Type 0 where
  mount_call : Text → Text → MountCall
  unmount_call : MountCall

unfoldable pub run : World → Text → List MountCall → DeviceSet → DeviceSet
run w hash [] s = s
run w hash (mount_call path mount_label ∷ calls) s =
    run w hash calls (mount_device w hash path mount_label s).0
run w hash (unmount_call ∷ calls) s = run w hash calls (unmount_device w hash s).0

abbrev pub replay : List MountCall → Use → Use
replay [] u = u
replay (mount_call path mount_label ∷ calls) u = replay calls (used_more path u)
replay (unmount_call ∷ calls) u = replay calls (used_less u)

-- On a kernel that works, any sequence of calls of MountDevice and UnmountDevice for a device leaves
-- it as a count of its users says: the first mount makes one mount of the kernel on top of those of
-- others, one more at the same path only counts, one at another path changes nothing, and the mount
-- of the kernel is taken away when as many are unmounted, and no earlier.
pub run-IsUsed :
    {hash : Text} {others : List Text} (w : World) (calls : List MountCall) (u : Use)
    (s : DeviceSet)
    → IsWorking w
    → IsUsed hash others u s
    → IsUsed hash others (replay calls u) (run w hash calls s)
unfolding run
run-IsUsed w [] u s k v = v
run-IsUsed w (mount_call path mount_label ∷ calls) u s k v =
    run-IsUsed w calls (used_more path u) _ k (mount-IsUsed w k s path mount_label u v)
run-IsUsed w (unmount_call ∷ calls) u s k v =
    run-IsUsed w calls (used_less u) _ k (unmount-IsUsed w k s u v)
