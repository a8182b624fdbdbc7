-- ===== src/Storage/Devices/Removal.antt =====
-- Deactivating and deleting devices:
-- daemon/graphdriver/devmapper/deviceset.go.
use docker.Common.{
  ℕ, zero, suc, ◌+◌, Option, none, some, List, [], ◌∷◌, Text, ◌==◌, if◌then◌else◌, nat_eq, text_eq,
}
use docker.Common.Maps.{contains, remove, insert, erase}
use docker.Storage.Metadata.{
  DevInfo, DeviceSet, DeviceError, remove_error, info_error, device_busy, timeout, unknown_device,
  Answer, done, busy, invalid, failed, World, allocate_transaction_id, remove_metadata,
  lookup_device,
}
use docker.Storage.Devices.{device_name, is_active, delete_id, activate_device_if_needed}

-- The 1,000 rounds of each wait.
abbrev pub rounds : ℕ
rounds = 1000

unfoldable pub remove_answered :
    Answer → Text → DeviceSet → DeviceSet × Option DeviceError → DeviceSet × Option DeviceError
remove_answered done name s rest =
    (record s { pool = record (s.pool) { active = remove name s.pool.active } }, none)
remove_answered busy name s rest = rest
remove_answered invalid name s rest = (s, some remove_error)
remove_answered failed name s rest = (s, some remove_error)

-- A removal that is busy is tried again.
unfoldable pub remove_device : World → ℕ → ℕ → Text → DeviceSet → DeviceSet × Option DeviceError
unfolding remove_answered
remove_device w zero i name s = (s, some device_busy)
remove_device w (suc n) i name s =
    remove_answered (w.removing i) name s (remove_device w n (i + 1) name s)

-- `waitRemove`: an error is taken for a device that does not exist.
unfoldable pub wait_remove : World → ℕ → ℕ → Option DeviceError
wait_remove w zero i = some timeout
wait_remove w (suc n) i =
    let rest = wait_remove w n (i + 1) in
    elim (w.exists_after i) [ none ↦ none | some there ↦ if there then rest else none ]

unfoldable pub waited : World → DeviceSet × Option DeviceError → DeviceSet × Option DeviceError
waited w (s, some e) = (s, some e)
waited w (s, none) = (s, wait_remove w rounds 0)

unfoldable pub remove_device_and_wait : World → Text → DeviceSet → DeviceSet × Option DeviceError
remove_device_and_wait w name s = waited w (remove_device w rounds 0 name s)

-- `waitClose`
unfoldable pub wait_close : World → ℕ → ℕ → Option DeviceError
wait_close w zero i = some timeout
wait_close w (suc n) i =
    let rest = wait_close w n (i + 1) in
    elim (w.open_count i) [ none ↦ some info_error | some k ↦ if k == 0 then none else rest ]

-- A device that is still open after the wait is removed all the same.
unfoldable pub deactivate_device : World → Text → DeviceSet → DeviceSet × Option DeviceError
deactivate_device w hash s =
    if w.reads_info
    then (if contains (device_name s hash) s.pool.active
        then remove_device_and_wait w (device_name s hash) s
        else (s, none))
    else (s, some info_error)

-- A device whose file cannot be removed is listed again.
unfoldable pub forgotten : DevInfo → DeviceSet × Option DeviceError → DeviceSet × Option DeviceError
forgotten info (s, none) = (s, none)
forgotten info (s, some e) = (record s { devices = insert info.hash info s.devices }, some e)

unfoldable pub forget :
    World → DevInfo → DeviceSet × Option DeviceError → DeviceSet × Option DeviceError
unfolding forgotten remove_metadata allocate_transaction_id
forget w info (s, some e) = (s, some e)
forget w info (s, none) = forgotten info (
    remove_metadata w info.hash
      (record (allocate_transaction_id s) { devices = erase info.hash s.devices }))

unfoldable pub delete_removed :
    World → DevInfo → DeviceSet × Option DeviceError → DeviceSet × Option DeviceError
unfolding forget delete_id
delete_removed w info (s, some e) = (s, some e)
delete_removed w info (s, none) = forget w info (delete_id w info.device_id s)

-- With `doBlkDiscard` the device is activated first, to discard its blocks.
unfoldable pub discarded : World → DevInfo → DeviceSet → DeviceSet
unfolding activate_device_if_needed
discarded w info s = if s.do_blk_discard then (activate_device_if_needed w info s).0 else s

unfoldable pub delete_active : World → DevInfo → DeviceSet → DeviceSet × Option DeviceError
delete_active w info s = delete_removed w info (
    if is_active w (device_name s info.hash) s
    then remove_device_and_wait w (device_name s info.hash) s
    else (s, none))

-- `deleteDevice`
unfoldable pub delete_info : World → DevInfo → DeviceSet → DeviceSet × Option DeviceError
delete_info w info s = delete_active w info (discarded w info s)

unfoldable pub delete_found :
    World → Text → DeviceSet × Option DevInfo → DeviceSet × Option DeviceError
delete_found w hash (s, none) = (s, some (unknown_device hash))
delete_found w hash (s, some info) = delete_info w info s

-- `DeleteDevice`
unfoldable pub delete_device : World → Text → DeviceSet → DeviceSet × Option DeviceError
delete_device w hash s = delete_found w hash (lookup_device hash s)

-- What the kernel does: the last mount of a path is taken away.
unfoldable pub unmount : Text → List Text → List Text
unmount path [] = []
unmount path (p ∷ mounts) = let rest = unmount path mounts in if p == path then mounts else p ∷ rest
