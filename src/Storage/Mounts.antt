-- ===== src/Storage/Mounts.antt =====
-- Mounting the devices of the pool, and unmounting them:
-- daemon/graphdriver/devmapper/deviceset.go and mount.go.
pub mod Branches
pub mod Refinement
pub mod Failure
use docker.Common.{
  ℕ, ◌+◌, ◌-◌, Bool, true, false, Option, none, some, List, [], ◌∷◌, ◌++◌, Text, codes, ltb, ◌==◌,
  not, if◌then◌else◌, nat_eq, text_eq,
}
use docker.Common.Maps.{lookup, insert, erase}
use docker.Storage.Metadata.{
  DevInfo, Pool, DeviceSet, DeviceError, probe_error, mount_error, unmount_error, unknown_device,
  not_mounted, multiple_places, Answer, done, busy, invalid, failed, World, lookup_device,
}
use docker.Storage.Devices.{device_name, activate_device_if_needed}
use docker.Storage.Devices.Removal.{deactivate_device, unmount}

unfoldable pub join_mount_options : Text → Text → Text
join_mount_options a b = if a == [] then b else if b == [] then a else a ++ codes "," ++ b

-- `devices.Devices[info.Hash]` is a pointer: what is written to a device is in the map.
abbrev pub put : DevInfo → DeviceSet → DeviceSet
put info s = record s { devices = insert info.hash info s.devices }

unfoldable pub mount_options_for : World → Text → Text → DeviceSet → Text
mount_options_for w fs_type mount_label s =
    join_mount_options
      (join_mount_options (if fs_type == codes "xfs" then codes "nouuid" else []) s.mount_options)
      (w.format_label mount_label)

-- A mount that the options of "discard" make invalid is tried without it.
unfoldable pub mounts_with : World → Text → Bool
mounts_with w options = elim (w.mounting (join_mount_options (codes "discard") options)) [
  | done ↦ true
  | busy ↦ false
  | invalid ↦ elim (w.mounting options) [
    | done ↦ true
    | busy ↦ false
    | invalid ↦ false
    | failed ↦ false
  ]
  | failed ↦ false
]

unfoldable pub mount_probed :
    World → Text → Text → DevInfo → Option Text → DeviceSet → DeviceSet × Option DeviceError
mount_probed w path mount_label info none s = (s, some probe_error)
mount_probed w path mount_label info (some fs_type) s =
    if mounts_with w (mount_options_for w fs_type mount_label s)
    then (
      put (record info { mount_count = 1; mount_path = path })
          (record s { pool = record (s.pool) { mounts = path ∷ s.pool.mounts } }),
      none,
    )
    else (s, some mount_error)

unfoldable pub mount_active :
    World → Text → Text → DevInfo → DeviceSet × Option DeviceError → DeviceSet × Option DeviceError
mount_active w path mount_label info (s, some e) = (s, some e)
mount_active w path mount_label info (s, none) = mount_probed w path mount_label info w.probes s

unfoldable pub mount_found :
    World → Text → Text → Text → DeviceSet × Option DevInfo → DeviceSet × Option DeviceError
mount_found w hash path mount_label (s, none) = (s, some (unknown_device hash))
mount_found w hash path mount_label (s, some info) =
    if ltb 0 info.mount_count
    then (if not (path == info.mount_path)
        then (s, some (multiple_places info.mount_path path))
        else (put (record info { mount_count = info.mount_count + 1 }) s, none))
    else mount_active w path mount_label info (activate_device_if_needed w info s)

-- `MountDevice`
unfoldable pub mount_device :
    World → Text → Text → Text → DeviceSet → DeviceSet × Option DeviceError
mount_device w hash path mount_label s = mount_found w hash path mount_label (lookup_device hash s)

unfoldable pub unmount_deactivated :
    DevInfo → DeviceSet × Option DeviceError → DeviceSet × Option DeviceError
unmount_deactivated info (s, some e) = (s, some e)
unmount_deactivated info (s, none) = (put (record info { mount_path = [] }) s, none)

-- The last unmount; the count of `info` is 0 already.
unfoldable pub unmount_last : World → DevInfo → DeviceSet → DeviceSet × Option DeviceError
unmount_last w info s =
    if w.unmounts
    then unmount_deactivated info (
        deactivate_device w info.hash
          (record s { pool = record (s.pool) { mounts = unmount info.mount_path s.pool.mounts } }))
    else (s, some unmount_error)

unfoldable pub unmount_found :
    World → Text → DeviceSet × Option DevInfo → DeviceSet × Option DeviceError
unmount_found w hash (s, none) = (s, some (unknown_device hash))
unmount_found w hash (s, some info) =
    if info.mount_count == 0
    then (s, some (not_mounted hash))
    else (let less : DevInfo = record info { mount_count = info.mount_count - 1 } in
        if ltb 0 less.mount_count then (put less s, none) else unmount_last w less (put less s))

-- `UnmountDevice`
unfoldable pub unmount_device : World → Text → DeviceSet → DeviceSet × Option DeviceError
unmount_device w hash s = unmount_found w hash (lookup_device hash s)
