-- ===== src/Storage/Devices.antt =====
-- The devices of the thin pool, created, activated, removed and deleted:
-- daemon/graphdriver/devmapper/deviceset.go and devmapper.go.
pub mod Removal
pub mod Base
pub mod Kernel
pub mod Deletion
pub mod Create
use docker.Common.{
  ℕ, zero, suc, ◌+◌, ◌%◌, ◌^◌, Bool, true, false, ◌&&◌, Option, none, some, List, [], ◌∷◌, ◌++◌,
  Text, codes, ◌==◌, if◌then◌else◌, nat_eq, text_eq,
}
use docker.Common.Results.{Result, ok, err}
use docker.Common.Maps.{contains, add, remove, lookup, insert, erase}
use docker.Storage.Metadata.{
  DevInfo, Pool, DeviceSet, DeviceError, create_error, suspend_error, resume_error, delete_error,
  activate_error, run_error, remove_error, info_error, device_busy, timeout, out_of_fuel,
  unsupported_filesystem, unknown_device, device_exists, Answer, done, busy, invalid, failed, World,
  allocate_transaction_id, remove_metadata, save_metadata, lookup_device, register_device,
}

-- `Name`
abbrev pub device_name : DeviceSet → Text → Text
device_name s hash = s.device_prefix ++ codes "-" ++ (if hash == [] then codes "base" else hash)

-- `DevName`
abbrev pub device_file : DeviceSet → Text → Text
device_file s hash = codes "/dev/mapper/" ++ device_name s hash

-- Whether getInfo answers that the device exists.
abbrev pub is_active : World → Text → DeviceSet → Bool
is_active w name s = w.reads_info && contains name s.pool.active

-- The kernel refuses an identifier that is taken, and the next one is tried: a search on fuel.
unfoldable pub create_from : World → ℕ → ℕ → List ℕ → Option (Result DeviceError ℕ)
create_from w zero id ids = none
create_from w (suc fuel) id ids =
    let rest = create_from w fuel (id + 1) ids in
    if contains id ids then rest else if w.creates id then some (ok id) else some (err create_error)

abbrev pub count : List ℕ → ℕ
count [] = 0
count (i ∷ ids) = suc (count ids)

unfoldable pub created :
    DeviceSet → Option (Result DeviceError ℕ) → DeviceSet × Result DeviceError ℕ
created s none = (s, err out_of_fuel)
created s (some (err e)) = (s, err e)
created s (some (ok id)) = (record s { pool = record (s.pool) { ids = add id s.pool.ids } }, ok id)

-- `createDevice`
unfoldable pub create_device : World → DeviceSet → DeviceSet × Result DeviceError ℕ
unfolding create_from created
create_device w s = created s (create_from w (suc (count s.pool.ids)) s.next_device_id s.pool.ids)

-- A base that cannot be resumed is an error, after the device was created.
unfoldable pub resumed : World → DeviceSet × Result DeviceError ℕ → DeviceSet × Result DeviceError ℕ
resumed w (s, err e) = (s, err e)
resumed w (s, ok id) = if w.resumes then (s, ok id) else (s, err resume_error)

-- `createSnapDevice`: a base that is active is suspended while the snapshot is taken.
unfoldable pub create_snap_device : World → Text → DeviceSet → DeviceSet × Result DeviceError ℕ
unfolding create_device resumed
create_snap_device w base_name s =
    if is_active w base_name s
    then (if w.suspends then resumed w (create_device w s) else (s, err suspend_error))
    else create_device w s

-- `deleteDevice` of devmapper.go
unfoldable pub delete_id : World → ℕ → DeviceSet → DeviceSet × Option DeviceError
delete_id w id s =
    if w.deletes
    then (record s { pool = record (s.pool) { ids = remove id s.pool.ids } }, none)
    else (s, some delete_error)

-- Identifiers have 24 bits.
abbrev pub step_id : ℕ → DeviceSet → DeviceSet
step_id id s = record s { next_device_id = (id + 1) % 2 ^ 24 }

-- What is left of a device that could not be registered is deleted.
unfoldable pub undone :
    World → ℕ → DeviceSet × Result DeviceError DevInfo → DeviceSet × Option DeviceError
undone w id (s, ok info) = (s, none)
undone w id (s, err e) = ((delete_id w id s).0, some e)

unfoldable pub add_created :
    World → Text → ℕ → DeviceSet × Result DeviceError ℕ → DeviceSet × Option DeviceError
unfolding undone
add_created w hash size (s, err e) = (s, some e)
add_created w hash size (s, ok id) = undone w id (register_device w id hash size (step_id id s))

-- `AddDevice`, once the base is found
unfoldable pub add_snap :
    World → Text → DevInfo → DeviceSet × Option DevInfo → DeviceSet × Option DeviceError
unfolding add_created create_snap_device
add_snap w hash base (s, some info) = (s, some (device_exists hash))
add_snap w hash base (s, none) =
    add_created w hash base.size (create_snap_device w (device_name s base.hash) s)

unfoldable pub add_on :
    World → Text → Text → DeviceSet × Option DevInfo → DeviceSet × Option DeviceError
unfolding add_snap lookup_device
add_on w hash base_hash (s, none) = (s, some (unknown_device base_hash))
add_on w hash base_hash (s, some base) = add_snap w hash base (lookup_device hash s)

unfoldable pub add_device : World → Text → Text → DeviceSet → DeviceSet × Option DeviceError
unfolding add_on
add_device w hash base_hash s = add_on w hash base_hash (lookup_device base_hash s)

unfoldable pub activate_device_if_needed :
    World → DevInfo → DeviceSet → DeviceSet × Option DeviceError
activate_device_if_needed w info s =
    if is_active w (device_name s info.hash) s
    then (s, none)
    else if w.activates
    then (
      record s { pool = record (s.pool) { active = add (device_name s info.hash) s.pool.active } },
      none,
    )
    else (s, some activate_error)
