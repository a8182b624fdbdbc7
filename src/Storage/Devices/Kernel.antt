-- ===== src/Storage/Devices/Kernel.antt =====
-- What activating and deactivating a device keep.
use docker.Common.{
  ℕ, zero, suc, ◌+◌, ◌≡◌, ◌∙◌, refl, Bool, true, false, Option, none, some, inl, inr, Text,
  Bool-cases, if◌then◌else◌, nat_eq, text_eq,
}
use docker.Common.Maps.{contains, add}
use docker.Storage.Metadata.{
  DevInfo, DeviceSet, DeviceError, Answer, done, busy, invalid, failed, World,
}
use docker.Storage.Devices.{is_active, device_name, activate_device_if_needed}
use docker.Storage.Devices.Removal.{
  rounds, remove_answered, remove_device, waited, remove_device_and_wait, deactivate_device,
  discarded,
}

-- Only the active devices of the pool differ.
pub record SameDevices (s s' : DeviceSet) : Type 0 where
  pub devices : s'.devices ≡ s.devices
  pub mounts : s'.pool.mounts ≡ s.pool.mounts
  pub files : s'.files ≡ s.files
  pub ids : s'.pool.ids ≡ s.pool.ids

answered-Same :
    (a : Answer) (name : Text) (s : DeviceSet) (rest : DeviceSet × Option DeviceError)
    → SameDevices s rest.0
    → SameDevices s (remove_answered a name s rest).0
unfolding remove_answered
answered-Same done name s rest h = record {
  devices = refl;
  mounts = refl;
  files = refl;
  ids = refl;
}
answered-Same busy name s rest h = h
answered-Same invalid name s rest h = record {
  devices = refl;
  mounts = refl;
  files = refl;
  ids = refl;
}
answered-Same failed name s rest h = record {
  devices = refl;
  mounts = refl;
  files = refl;
  ids = refl;
}

pub remove_device-Same :
    (w : World) (n i : ℕ) (name : Text) (s : DeviceSet)
    → SameDevices s (remove_device w n i name s).0
unfolding remove_device
remove_device-Same w zero i name s = record {
  devices = refl;
  mounts = refl;
  files = refl;
  ids = refl;
}
remove_device-Same w (suc n) i name s =
    answered-Same (w.removing i) name s _ (remove_device-Same w n (i + 1) name s)

pub waited-Same :
    (w : World) (s : DeviceSet) (r : DeviceSet × Option DeviceError)
    → SameDevices s r.0
    → SameDevices s (waited w r).0
unfolding waited
waited-Same w s (s', none) h = h
waited-Same w s (s', some e) h = h

pub choose-Same :
    (b : Bool) {s : DeviceSet} (r r' : DeviceSet × Option DeviceError)
    → SameDevices s r.0
    → SameDevices s r'.0
    → SameDevices s (if b then r else r').0
choose-Same true r r' h h' = h
choose-Same false r r' h h' = h'

pub deactivate_device-Same :
    (w : World) (hash : Text) (s : DeviceSet) → SameDevices s (deactivate_device w hash s).0
unfolding deactivate_device remove_device_and_wait
deactivate_device-Same w hash s =
    choose-Same w.reads_info _ _
      (choose-Same (contains (device_name s hash) s.pool.active) _ _
        (waited-Same w s _ (remove_device-Same w rounds 0 (device_name s hash) s))
        (record { devices = refl; mounts = refl; files = refl; ids = refl }))
      (record { devices = refl; mounts = refl; files = refl; ids = refl })

pub record Activated (w : World) (info : DevInfo) (s : DeviceSet) : Type 0 where
  pub after : DeviceSet
  pub same : SameDevices s after
  pub equation : activate_device_if_needed w info s ≡ (after, none)

pub activate-Activated :
    (w : World) (info : DevInfo) (s : DeviceSet) → w.activates ≡ true → Activated w info s
unfolding activate_device_if_needed
activate-Activated w info s k = elim (Bool-cases (is_active w (device_name s info.hash) s)) [
  | inl e ↦ record {
    after = s;
    same = record { devices = refl; mounts = refl; files = refl; ids = refl };
    equation = rw (e, activate_device_if_needed) refl;
  }
  | inr e ↦ record {
    after = record s {
      pool = record (s.pool) { active = add (device_name s info.hash) s.pool.active };
    };
    same = record { devices = refl; mounts = refl; files = refl; ids = refl };
    equation = rw (e, k, activate_device_if_needed) refl;
  }
]

pub SameDevices-trans :
    {s s' s'' : DeviceSet} → SameDevices s s' → SameDevices s' s'' → SameDevices s s''
SameDevices-trans a b = record {
  devices = b.devices ∙ a.devices;
  mounts = b.mounts ∙ a.mounts;
  files = b.files ∙ a.files;
  ids = b.ids ∙ a.ids;
}

pub discarded-Same :
    (w : World) (info : DevInfo) (s : DeviceSet) → SameDevices s (discarded w info s)
unfolding discarded activate_device_if_needed
discarded-Same w info s = choose s.do_blk_discard
  where
    same : SameDevices s s
    same = record { devices = refl; mounts = refl; files = refl; ids = refl }

    choose : (b : Bool) → SameDevices s (if b then (activate_device_if_needed w info s).0 else s)
    choose true = choose-Same (is_active w (device_name s info.hash) s) _ _ same (
        choose-Same w.activates _ _
          (record { devices = refl; mounts = refl; files = refl; ids = refl }) same)
    choose false = same
