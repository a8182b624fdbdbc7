-- ===== src/Storage/Tests.antt =====
-- A set of two devices, and the theorems at it.
use docker.Common.{◌≡◌, refl, Bool, true, false, none, some, [], ◌∷◌, codes, arith, text_eq, nat_eq}
use docker.Common.Results.{ok}
use docker.Common.Maps.{lookup, contains}
use docker.Storage.Metadata.{
  DevInfo, DeviceSet, done, World, metadata_file, allocate_transaction_id, new_info, load_metadata,
  register_device,
}
use docker.Storage.Metadata.Crash.{
  IsSettled, Outlives, register_device-Outlives, load_metadata-register_device,
}
use docker.Storage.Devices.{create_from, created, create_device}
use docker.Storage.Devices.Create.{Created, create_device-Created}
use docker.Storage.Devices.Removal.{delete_info}
use docker.Storage.Devices.Deletion.{Deleted, delete_info-Deleted}
use docker.Storage.Mounts.{mount_device, unmount_device}
use docker.Storage.Mounts.Branches.{IsWorking}
use docker.Storage.Mounts.Refinement.{
  unused, used, IsUsed, mount_call, unmount_call, run, run-IsUsed,
}
use docker.Storage.Mounts.Failure.{mount_device-unmount_device}

-- A kernel and a disk on which all works, if the last three do.
abbrev kernel : Bool → Bool → Bool → World
kernel writes commits unmounts = record {
  creates = λ id. true;
  suspends = true;
  resumes = true;
  deletes = true;
  writes_file = writes;
  removes_file = true;
  commits = commits;
  activates = true;
  runs = λ command args. true;
  probes = some (codes "ext4");
  mounting = λ options. done;
  format_label = λ mount_label. [];
  unmounts = unmounts;
  reads_info = true;
  removing = λ i. done;
  exists_after = λ i. some false;
  open_count = λ i. some 0;
}

abbrev working : World
working = kernel true true true

abbrev base : DevInfo
base = record {
  hash = [];
  device_id = 0;
  size = 100;
  transaction_id = 1;
  initialized = true;
  mount_count = 0;
  mount_path = [];
}

abbrev devices : DeviceSet
devices = record {
  devices = ([], base) ∷ [];
  device_prefix = codes "docker";
  transaction_id = 1;
  new_transaction_id = 1;
  next_device_id = 0;
  base_fs_size = 100;
  filesystem = codes "ext4";
  mount_options = [];
  mkfs_args = [];
  do_blk_discard = true;
  files =
      (codes "base", record { device_id = 0; size = 100; transaction_id = 1; initialized = true })
      ∷ [];
  pool = record { ids = 0 ∷ 1 ∷ []; active = []; transaction = 1; mounts = codes "/" ∷ [] };
}

settled : IsSettled devices
settled = record { in_pool = refl; not_behind = omega arith; bounded = omega arith }

works : IsWorking working
works = record {
  activates = refl;
  fs_type = codes "ext4";
  probes = refl;
  mounting = λ options. refl;
  unmounts = refl;
}

not_mounted_yet : IsUsed [] (codes "/" ∷ []) unused devices
unfolding lookup
not_mounted_yet = record { info = base; found = refl; same = refl; shows = refl; mounts = refl }

abbrev mounted_base : DeviceSet
mounted_base = record devices {
  devices = ([], record base { mount_count = 1; mount_path = codes "/m" }) ∷ [];
  pool = record (devices.pool) { mounts = codes "/m" ∷ codes "/" ∷ [] };
}

mounted_once : IsUsed [] (codes "/" ∷ []) (used (codes "/m") 0) mounted_base
unfolding lookup
mounted_once = record {
  info = record base { mount_count = 1; mount_path = codes "/m" };
  found = refl;
  same = refl;
  shows = (refl, refl);
  mounts = refl;
}

absent : lookup (metadata_file (codes "a")) devices.files ≡ none
unfolding lookup
absent = refl

found_base : lookup [] devices.devices ≡ some base
unfolding lookup
found_base = refl

register_device-Outlives_example :
    Outlives
      (codes "a")
      7
      100
      devices
      (register_device (kernel true false true) 7 (codes "a") 100 devices)
register_device-Outlives_example =
    register_device-Outlives (kernel true false true) 7 (codes "a") 100 devices settled absent

load_metadata-register_device_example :
    load_metadata
      (codes "a")
      (register_device working 8
        (codes "b")
        100
        (register_device (kernel true false true) 7 (codes "a") 100 devices).0).0
    ≡ some (new_info (codes "a") 7 100 (allocate_transaction_id devices))
load_metadata-register_device_example =
    load_metadata-register_device (kernel true false true) working 7 8 100 100 (codes "a")
      (codes "b") devices settled (omega arith) refl refl refl refl refl

create_device-Created_example : Created working devices (create_device working devices)
create_device-Created_example = create_device-Created working devices

third_id : (create_device working devices).1 ≡ ok 2
unfolding create_device create_from created contains
third_id = refl

delete_info-Deleted_example : Deleted base devices (delete_info working base devices)
delete_info-Deleted_example = delete_info-Deleted working base devices found_base

run-IsUsed_example : IsUsed [] (codes "/" ∷ []) (used (codes "/m") 0) (
    run working []
      (mount_call (codes "/m") []
        ∷ mount_call (codes "/m") []
        ∷ mount_call (codes "/n") []
        ∷ unmount_call
        ∷ [])
      devices)
run-IsUsed_example =
    run-IsUsed working
      (mount_call (codes "/m") []
        ∷ mount_call (codes "/m") []
        ∷ mount_call (codes "/n") []
        ∷ unmount_call
        ∷ [])
      unused devices works not_mounted_yet

mount_device-unmount_device_example :
    (mount_device working []
      (codes "/n")
      []
      (unmount_device (kernel true true false) [] mounted_base).0).0.pool.mounts
    ≡ codes "/n" ∷ codes "/m" ∷ codes "/" ∷ []
mount_device-unmount_device_example =
    mount_device-unmount_device (kernel true true false) working (codes "/n") [] mounted_base refl
      works mounted_once
