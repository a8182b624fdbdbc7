-- ===== src/Storage/Metadata.antt =====
-- The devices that a DeviceSet knows, in memory and in files, and the transactions of its pool:
-- daemon/graphdriver/devmapper/deviceset.go. The kernel and the disk are outside: a value `World`
-- says which of their calls succeed while a function runs.
pub mod Crash
use docker.Common.{
  ℕ, ◌+◌, ◌%◌, ◌^◌, ◌≡◌, Bool, true, false, Option, none, some, List, [], ◌∷◌, Text, codes, ltb,
  ◌==◌, if◌then◌else◌, nat_eq, text_eq,
}
use docker.Common.Results.{Result, ok, err}
use docker.Common.Maps.{lookup, insert, erase}

-- What the file of a device says.
pub record Stored : Type 0 where
  pub device_id : ℕ
  pub size : ℕ
  pub transaction_id : ℕ
  pub initialized : Bool

pub record DevInfo : Type 0 where
  pub hash : Text
  pub device_id : ℕ
  pub size : ℕ
  pub transaction_id : ℕ
  pub initialized : Bool
  pub mount_count : ℕ
  pub mount_path : Text

-- What the kernel keeps: the devices of the thin pool and its transaction, the devices that are
-- active, and the paths where one is mounted, the last one first.
pub record Pool : Type 0 where
  pub ids : List ℕ
  pub active : List Text
  pub transaction : ℕ
  pub mounts : List Text

pub record DeviceSet : Type 0 where
  pub devices : List (Text × DevInfo)
  pub device_prefix : Text
  pub transaction_id : ℕ
  pub new_transaction_id : ℕ
  pub next_device_id : ℕ
  pub base_fs_size : ℕ
  pub filesystem : Text
  pub mount_options : Text
  pub mkfs_args : List Text
  pub do_blk_discard : Bool
  pub files : List (Text × Stored)
  pub pool : Pool

pub data DeviceError : Type 0 where
  metadata_error transaction_error remove_error : DeviceError
  create_error suspend_error resume_error delete_error activate_error : DeviceError
  run_error probe_error mount_error unmount_error info_error device_busy timeout out_of_fuel :
      DeviceError
  unsupported_filesystem unknown_device device_exists not_mounted : Text → DeviceError
  multiple_places : Text → Text → DeviceError

-- What dm_task_run says to the removal of a device, and the kernel to a mount.
pub data Answer : Type 0 where
  done busy invalid failed : Answer

-- `exists_after` and `open_count` are what getInfo says at each round of a wait, and `runs` whether
-- a command with these arguments succeeds.
pub record World : Type 0 where
  pub creates : ℕ → Bool
  pub suspends : Bool
  pub resumes : Bool
  pub deletes : Bool
  pub writes_file : Bool
  pub removes_file : Bool
  pub commits : Bool
  pub activates : Bool
  pub runs : Text → List Text → Bool
  pub probes : Option Text
  pub mounting : Text → Answer
  pub format_label : Text → Text
  pub unmounts : Bool
  pub reads_info : Bool
  pub removing : ℕ → Answer
  pub exists_after : ℕ → Option Bool
  pub open_count : ℕ → Option ℕ

-- `metadataFile`, without its directory
abbrev pub metadata_file : Text → Text
metadata_file hash = if hash == [] then codes "base" else hash

-- A `uint64`.
unfoldable pub allocate_transaction_id : DeviceSet → DeviceSet
allocate_transaction_id s = record s { new_transaction_id = (s.new_transaction_id + 1) % 2 ^ 64 }

abbrev pub stored : DevInfo → Stored
stored info = record {
  device_id = info.device_id;
  size = info.size;
  transaction_id = info.transaction_id;
  initialized = info.initialized;
}

unfoldable pub remove_metadata : World → Text → DeviceSet → DeviceSet × Option DeviceError
remove_metadata w hash s =
    if w.removes_file
    then (record s { files = erase (metadata_file hash) s.files }, none)
    else (s, some remove_error)

-- The transaction of the pool is moved on if one was allocated.
unfoldable pub commit : World → DeviceSet → DeviceSet × Option DeviceError
commit w s =
    if s.new_transaction_id == s.transaction_id
    then (s, none)
    else (if w.commits
        then (
          record s {
            transaction_id = s.new_transaction_id;
            pool = record (s.pool) { transaction = s.new_transaction_id };
          },
          none,
        )
        else (s, some transaction_error))

-- The file is written beside the old one and renamed, so that it is there whole or not at all.
unfoldable pub save_metadata : World → DevInfo → DeviceSet → DeviceSet × Option DeviceError
unfolding commit insert
save_metadata w info s =
    if w.writes_file
    then commit w (record s { files = insert (metadata_file info.hash) (stored info) s.files })
    else (s, some metadata_error)

abbrev pub info_of : Text → Stored → DevInfo
info_of hash f = record {
  hash = hash;
  device_id = f.device_id;
  size = f.size;
  transaction_id = f.transaction_id;
  initialized = f.initialized;
  mount_count = 0;
  mount_path = [];
}

-- A device of a later transaction than the pool's was lost in a crash.
unfoldable pub load_metadata : Text → DeviceSet → Option DevInfo
load_metadata hash s = elim (lookup (metadata_file hash) s.files) [
  | none ↦ none
  | some f ↦ if ltb s.transaction_id f.transaction_id then none else some (info_of hash f)
]

unfoldable pub lookup_device : Text → DeviceSet → DeviceSet × Option DevInfo
unfolding load_metadata
lookup_device hash s = elim (lookup hash s.devices) [
  | some info ↦ (s, some info)
  | none ↦ elim (load_metadata hash s) [
    | none ↦ (s, none)
    | some info ↦ (record s { devices = insert hash info s.devices }, some info)
  ]
]

abbrev pub new_info : Text → ℕ → ℕ → DeviceSet → DevInfo
new_info hash id size s = record {
  hash = hash;
  device_id = id;
  size = size;
  transaction_id = s.new_transaction_id;
  initialized = false;
  mount_count = 0;
  mount_path = [];
}

-- An error takes the device out of the map again.
unfoldable pub registered :
    DevInfo → DeviceSet × Option DeviceError → DeviceSet × Result DeviceError DevInfo
registered info (s, none) = (s, ok info)
registered info (s, some e) = (record s { devices = erase info.hash s.devices }, err e)

unfoldable pub register_device :
    World → ℕ → Text → ℕ → DeviceSet → DeviceSet × Result DeviceError DevInfo
unfolding registered save_metadata allocate_transaction_id
register_device w id hash size s =
    let s' = allocate_transaction_id s in
    let info = new_info hash id size s' in
    registered info (save_metadata w info (record s' { devices = insert hash info s'.devices }))

-- The daemon starts again: the map is empty and the transaction is the pool's (`initMetaData`).
unfoldable pub restart : DeviceSet → DeviceSet
restart s = record s {
  devices = [];
  transaction_id = s.pool.transaction;
  new_transaction_id = s.pool.transaction;
}
