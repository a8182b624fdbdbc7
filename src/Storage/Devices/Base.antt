-- ===== src/Storage/Devices/Base.antt =====
-- The base device and its filesystem, the end of the daemon, and what is asked of the set:
-- daemon/graphdriver/devmapper/deviceset.go.
use docker.Common.{
  ℕ, Bool, true, false, ◌||◌, Option, none, some, List, [], ◌∷◌, ◌++◌, map, Text, codes, ltb, ◌==◌,
  if◌then◌else◌, nat_eq, text_eq,
}
use docker.Common.Results.{Result, ok, err}
use docker.Common.Maps.{contains, insert}
use docker.Storage.Metadata.{
  DevInfo, DeviceSet, DeviceError, run_error, info_error, device_busy, unsupported_filesystem,
  World, save_metadata, lookup_device, register_device,
}
use docker.Storage.Devices.{
  device_name, device_file, is_active, create_device, delete_id, step_id, activate_device_if_needed,
}
use docker.Storage.Devices.Removal.{remove_answered, deactivate_device, delete_info, unmount}

abbrev run_twice : World → Text → List Text → List Text → Option DeviceError
run_twice w command first second =
    if w.runs command first || w.runs command second then none else some run_error

unfoldable pub create_filesystem : World → DevInfo → DeviceSet → Option DeviceError
create_filesystem w info s =
    let args : List Text = s.mkfs_args ++ (device_file s info.hash ∷ []) in
    let lazy : Text = codes "nodiscard,lazy_itable_init=0" in
    if s.filesystem == codes "xfs"
    then (if w.runs (codes "mkfs.xfs") args then none else some run_error)
    else if s.filesystem == codes "ext4"
    then run_twice w (codes "mkfs.ext4")
        (codes "-E" ∷ (lazy ++ codes ",lazy_journal_init=0") ∷ args) (codes "-E" ∷ lazy ∷ args)
    else some (unsupported_filesystem s.filesystem)

-- The device is marked as initialized, and not after all if that cannot be written.
unfoldable pub mark_initialized :
    World → DevInfo → Option DeviceError → DeviceSet → DeviceSet × Option DeviceError
unfolding save_metadata
mark_initialized w info (some e) s = (s, some e)
mark_initialized w info none s =
    let after : DevInfo = record info { initialized = true } in
    let saved : DeviceSet × Option DeviceError =
      save_metadata w after (record s { devices = insert info.hash after s.devices }) in
    elim saved.1 [
      | none ↦ saved
      | some e ↦ (record (saved.0) { devices = insert info.hash info s.devices }, some e)
    ]

unfoldable pub formatted :
    World → DevInfo → DeviceSet × Option DeviceError → DeviceSet × Option DeviceError
unfolding mark_initialized create_filesystem
formatted w info (s, some e) = (s, some e)
formatted w info (s, none) = mark_initialized w info (create_filesystem w info s) s

unfoldable pub base_registered :
    World → World → ℕ → DeviceSet × Result DeviceError DevInfo → DeviceSet × Option DeviceError
base_registered w w' id (s, err e) = ((delete_id w id s).0, some e)
base_registered w w' id (s, ok info) = formatted w' info (activate_device_if_needed w' info s)

unfoldable pub base_created :
    World → World → DeviceSet × Result DeviceError ℕ → DeviceSet × Option DeviceError
base_created w w' (s, err e) = (s, some e)
base_created w w' (s, ok id) =
    base_registered w w' id (register_device w id [] s.base_fs_size (step_id id s))

unfoldable pub base_ready :
    World → World → DeviceSet × Option DeviceError → DeviceSet × Option DeviceError
base_ready w w' (s, some e) = (s, some e)
base_ready w w' (s, none) = base_created w w' (create_device w s)

unfoldable pub base_found :
    World → World → DeviceSet × Option DevInfo → DeviceSet × Option DeviceError
base_found w w' (s, none) = base_ready w w' (s, none)
base_found w w' (s, some info) =
    if info.initialized then (s, none) else base_ready w w' (delete_info w info s)

-- `setupBaseImage`: the second world is the one from activating the new device on.
unfoldable pub setup_base_image : World → World → DeviceSet → DeviceSet × Option DeviceError
setup_base_image w w' s = base_found w w' (lookup_device [] s)

abbrev pub pool_name : DeviceSet → Text
pool_name s = s.device_prefix ++ codes "-pool"

unfoldable pub deactivate_pool : World → DeviceSet → DeviceSet × Option DeviceError
unfolding remove_answered
deactivate_pool w s =
    if w.reads_info
    then (if contains (pool_name s) s.pool.active
        then remove_answered (w.removing 0) (pool_name s) s (s, some device_busy)
        else (s, none))
    else (s, some info_error)

-- A device that is mounted is detached and deactivated; the errors are only logged.
unfoldable pub shut_down_device : World → DevInfo → DeviceSet → DeviceSet
shut_down_device w info s =
    if ltb 0 info.mount_count
    then (let detached : DeviceSet =
          if w.unmounts
          then record s {
            pool = record (s.pool) { mounts = unmount info.mount_path s.pool.mounts };
          }
          else s in
        (deactivate_device w info.hash detached).0)
    else s

unfoldable pub shut_down_all : World → List (Text × DevInfo) → DeviceSet → DeviceSet
shut_down_all w [] s = s
shut_down_all w ((hash, info) ∷ devs) s = shut_down_all w devs (shut_down_device w info s)

unfoldable pub shut_down_base : World → DeviceSet × Option DevInfo → DeviceSet
shut_down_base w (s, none) = s
shut_down_base w (s, some info) = (deactivate_device w info.hash s).0

-- `Shutdown`
unfoldable pub shutdown : World → DeviceSet → DeviceSet
shutdown w s =
    (deactivate_pool w (shut_down_base w (lookup_device [] (shut_down_all w s.devices s)))).0

unfoldable pub is_some : DeviceSet × Option DevInfo → DeviceSet × Bool
is_some (s, none) = (s, false)
is_some (s, some info) = (s, true)

unfoldable pub has_device : Text → DeviceSet → DeviceSet × Bool
unfolding is_some lookup_device
has_device hash s = is_some (lookup_device hash s)

unfoldable pub activated : World → DeviceSet × Option DevInfo → DeviceSet × Bool
activated w (s, none) = (s, false)
activated w (s, some info) = (s, is_active w (device_name s info.hash) s)

unfoldable pub has_activated_device : World → Text → DeviceSet → DeviceSet × Bool
unfolding activated lookup_device
has_activated_device w hash s = activated w (lookup_device hash s)

-- `List`
unfoldable pub list : DeviceSet → List Text
list s = map (λ d. d.0) s.devices
