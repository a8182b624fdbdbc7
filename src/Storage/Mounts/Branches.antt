-- ===== src/Storage/Mounts/Branches.antt =====
-- The ways that a mount and an unmount go.
use docker.Common.{
  ℕ, suc, ◌+◌, ◌-◌, ◌≡◌, ◌∙◌, refl, ap, true, false, none, some, inl, inr, ◌∷◌, Text, arith,
  Bool-cases, ltb, ◌==◌, if◌then◌else◌, nat_eq, text_eq,
}
use docker.Storage.Metadata.{DevInfo, DeviceSet, done, World}
use docker.Storage.Devices.{activate_device_if_needed}
use docker.Storage.Mounts.{
  put, mounts_with, mount_options_for, mount_probed, mount_active, mount_found, unmount_last,
  unmount_found,
}

-- A kernel in which a device can be activated, mounted with every option, and unmounted.
pub record IsWorking (w : World) : Type 0 where
  pub activates : w.activates ≡ true
  pub fs_type : Text
  pub probes : w.probes ≡ some fs_type
  pub mounting : (options : Text) → w.mounting options ≡ done
  pub unmounts : w.unmounts ≡ true

mounts_all : (w : World) (options : Text) → IsWorking w → mounts_with w options ≡ true
unfolding mounts_with
mounts_all w options k = rw (k.mounting, mounts_with) refl

mount_some :
    (w : World) (path l : Text) (info : DevInfo) (fs_type : Text) (s : DeviceSet)
    → mounts_with w (mount_options_for w fs_type l s) ≡ true
    → mount_probed w path l info (some fs_type) s ≡ (
      put
          (record info { mount_count = 1; mount_path = path })
          (record s { pool = record (s.pool) { mounts = path ∷ s.pool.mounts } }),
      none,
    )
unfolding mount_probed
mount_some w path l info fs_type s e = rw (e, mount_probed) refl

pub mount_active_done :
    (w : World) (path l : Text) (info : DevInfo) (s : DeviceSet)
    → IsWorking w
    → mount_active w path l info (s, none) ≡ (
      put
          (record info { mount_count = 1; mount_path = path })
          (record s { pool = record (s.pool) { mounts = path ∷ s.pool.mounts } }),
      none,
    )
unfolding mount_active
mount_active_done w path l info s k =
    ap (λ o. mount_probed w path l info o s) k.probes
    ∙ mount_some w path l info k.fs_type s (mounts_all w _ k)

pub mount_first :
    (w : World) (hash path l : Text) (info : DevInfo) (s : DeviceSet)
    → info.mount_count ≡ 0
    → mount_found w hash path l (s, some info)
      ≡ mount_active w path l info (activate_device_if_needed w info s)
unfolding mount_found
mount_first w hash path l info s e =
    let b : ltb 0 info.mount_count ≡ false = ground (arith, e) in rw (b, mount_found) refl

pub mount_again :
    (w : World) (hash path l : Text) (info : DevInfo) (s : DeviceSet) (n : ℕ)
    → info.mount_count ≡ suc n
    → (mount_found w hash path l (s, some info)).0 ≡ (
        if path == info.mount_path
        then put (record info { mount_count = info.mount_count + 1 }) s
        else s)
unfolding mount_found
mount_again w hash path l info s n e =
    let b : ltb 0 info.mount_count ≡ true = ground (arith, e) in
    elim (Bool-cases (path == info.mount_path)) [
      | inl c ↦ rw (b, c, mount_found) refl
      | inr c ↦ rw (b, c, mount_found) refl
    ]

pub unmount_more :
    (w : World) (hash : Text) (info : DevInfo) (s : DeviceSet) (n : ℕ)
    → info.mount_count ≡ suc (suc n)
    → (unmount_found w hash (s, some info)).0
      ≡ put (record info { mount_count = info.mount_count - 1 }) s
unfolding unmount_found
unmount_more w hash info s n e =
    let a : (info.mount_count == 0) ≡ false = ground (arith, e) in
    let b : ltb 0 (info.mount_count - 1) ≡ true = ground (arith, e) in rw (a, b, unmount_found) refl

pub unmount_one :
    (w : World) (hash : Text) (info : DevInfo) (s : DeviceSet)
    → info.mount_count ≡ 1
    → unmount_found w hash (s, some info)
      ≡ unmount_last w
          (record info { mount_count = info.mount_count - 1 })
          (put (record info { mount_count = info.mount_count - 1 }) s)
unfolding unmount_found
unmount_one w hash info s e =
    let a : (info.mount_count == 0) ≡ false = ground (arith, e) in
    let b : ltb 0 (info.mount_count - 1) ≡ false = ground (arith, e) in
    rw (a, b, unmount_found) refl

pub unmount_none :
    (w : World) (hash : Text) (info : DevInfo) (s : DeviceSet)
    → info.mount_count ≡ 0
    → (unmount_found w hash (s, some info)).0 ≡ s
unfolding unmount_found
unmount_none w hash info s e =
    let a : (info.mount_count == 0) ≡ true = ground (arith, e) in rw (a, unmount_found) refl
