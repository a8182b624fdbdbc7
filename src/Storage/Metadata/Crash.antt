-- ===== src/Storage/Metadata/Crash.antt =====
-- A device that is registered outlives a crash, and one that failed to register does not, until a
-- later transaction brings its file back.
use docker.Common.{
  ℕ, ◌+◌, ◌^◌, ◌<◌, ◌≤◌, ◌≡◌, refl, sym, ap, ◌∙◌, true, false, Option, none, some, inl, inr, Text,
  ltb, arith, Bool-cases, ◌==◌, ==_refl, nat_eq, text_eq,
}
use docker.Common.Results.{Result, ok, err}
use docker.Common.Maps.{lookup, insert, erase, lookup-insert}
use docker.Storage.Metadata.{
  Stored, DevInfo, DeviceSet, World, DeviceError, transaction_error, metadata_file, stored, info_of,
  new_info, load_metadata, allocate_transaction_id, register_device, restart,
}

-- The transactions of a set that has nothing to commit, below the bound of 64 bits.
pub record IsSettled (s : DeviceSet) : Type 0 where
  pub in_pool : s.pool.transaction ≡ s.transaction_id
  pub not_behind : s.transaction_id ≤ s.new_transaction_id
  pub bounded : s.new_transaction_id + 1 < 2 ^ 64

-- What a restart finds of a device.
abbrev pub found_after : Text → DeviceSet → Option DevInfo
found_after hash s = load_metadata hash (restart s)

abbrev pub Outlives : Text → ℕ → ℕ → DeviceSet → DeviceSet × Result DeviceError DevInfo → Type 0
Outlives hash id size s (s', ok info) =
    found_after hash s' ≡ some (new_info hash id size (allocate_transaction_id s))
Outlives hash id size s (s', err e) = found_after hash s' ≡ found_after hash s

pub load_present :
    (hash : Text) (s : DeviceSet) {f : Stored}
    → lookup (metadata_file hash) s.files ≡ some f
    → ltb s.transaction_id f.transaction_id ≡ false
    → load_metadata hash s ≡ some (info_of hash f)
unfolding load_metadata
load_present hash s e b = rw (e, b, load_metadata) refl

pub load_later :
    (hash : Text) (s : DeviceSet) {f : Stored}
    → lookup (metadata_file hash) s.files ≡ some f
    → ltb s.transaction_id f.transaction_id ≡ true
    → load_metadata hash s ≡ none
unfolding load_metadata
load_later hash s e b = rw (e, b, load_metadata) refl

pub load_absent :
    (hash : Text) (s : DeviceSet)
    → lookup (metadata_file hash) s.files ≡ none
    → load_metadata hash s ≡ none
unfolding load_metadata
load_absent hash s e = rw (e, load_metadata) refl

module _ (w : World) (id : ℕ) (hash : Text) (size : ℕ) (s : DeviceSet) where
  abbrev allocated : DeviceSet
  allocated = allocate_transaction_id s

  abbrev info : DevInfo
  info = new_info hash id size allocated

  abbrev listed : DeviceSet
  listed = record allocated { devices = insert hash info allocated.devices }

  fresh : IsSettled s → (allocated.new_transaction_id == s.transaction_id) ≡ false
  unfolding allocate_transaction_id
  fresh v = ground arith

  saved_file :
      lookup (metadata_file hash) (insert (metadata_file hash) (stored info) s.files)
      ≡ some (stored info)
  saved_file =
      lookup-insert (metadata_file hash) (metadata_file hash) (stored info) s.files
      ∙ ground (arith, ==_refl (metadata_file hash))

  not_later : (n : ℕ) → ltb n n ≡ false
  not_later n = ground arith

  later : IsSettled s → ltb s.pool.transaction allocated.new_transaction_id ≡ true
  unfolding allocate_transaction_id
  later v = ground arith

  -- A crash after registering a device, with nothing to commit before and no file of its name: if it
  -- succeeded, the daemon that starts again finds the device as it was registered; if it failed, at
  -- whichever call, it finds as much of the device as before, nothing.
  pub register_device-Outlives :
      IsSettled s
      → lookup (metadata_file hash) s.files ≡ none
      → Outlives hash id size s (register_device w id hash size s)
  unfolding register_device restart allocate_transaction_id
  register_device-Outlives v absent = elim (Bool-cases w.writes_file) [
    | inr no_file ↦
        rw (no_file, register_device)
          (load_absent hash (restart s) absent ∙ sym (load_absent hash (restart s) absent))
    | inl file ↦ elim (Bool-cases w.commits) [
      | inl done ↦
          rw (file, fresh v, done, register_device)
            (load_present hash
              (restart (record listed {
                transaction_id = allocated.new_transaction_id;
                files = insert (metadata_file hash) (stored info) s.files;
                pool = record (s.pool) { transaction = allocated.new_transaction_id };
              }))
              saved_file (not_later allocated.new_transaction_id))
      | inr lost ↦
          rw (file, fresh v, lost, register_device)
            (load_later hash
                (restart
                  (record listed { files = insert (metadata_file hash) (stored info) s.files }))
                saved_file (later v)
              ∙ sym (load_absent hash (restart s) absent))
    ]
  ]

  register_device_lost :
      w.writes_file ≡ true
      → w.commits ≡ false
      → (allocated.new_transaction_id == s.transaction_id) ≡ false
      → register_device w id hash size s ≡ (
        record listed {
          devices = erase hash listed.devices;
          files = insert (metadata_file hash) (stored info) s.files;
        },
        err transaction_error,
      )
  unfolding register_device allocate_transaction_id
  register_device_lost file lost new = rw (file, new, lost, register_device) refl

  abbrev completed : DeviceSet
  completed = record listed {
    transaction_id = allocated.new_transaction_id;
    files = insert (metadata_file hash) (stored info) s.files;
    pool = record (s.pool) { transaction = allocated.new_transaction_id };
  }

  register_device_done :
      w.writes_file ≡ true
      → w.commits ≡ true
      → (allocated.new_transaction_id == s.transaction_id) ≡ false
      → register_device w id hash size s ≡ (completed, ok info)
  unfolding register_device allocate_transaction_id
  register_device_done file done new = rw (file, new, done, register_device) refl

-- What a failed registration leaves: its file, and an allocated transaction.
abbrev left : World → ℕ → Text → ℕ → DeviceSet → DeviceSet
left w id hash size s = record (listed w id hash size s) {
  devices = erase hash (listed w id hash size s).devices;
  files = insert (metadata_file hash) (stored (info w id hash size s)) s.files;
}

again :
    (w w' : World) (id id' size size' : ℕ) (hash hash' : Text) (s : DeviceSet)
    → IsSettled s
    → s.new_transaction_id + 2 < 2 ^ 64
    → ((allocated w' id' hash' size' (left w id hash size s)).new_transaction_id
        == (left w id hash size s).transaction_id)
      ≡ false
unfolding allocate_transaction_id
again w w' id id' size size' hash hash' s v small = ground arith

older :
    (w w' : World) (id id' size size' : ℕ) (hash hash' : Text) (s : DeviceSet)
    → s.new_transaction_id + 2 < 2 ^ 64
    → ltb
        (allocated w' id' hash' size' (left w id hash size s)).new_transaction_id
        (info w id hash size s).transaction_id
      ≡ false
unfolding allocate_transaction_id
older w w' id id' size size' hash hash' s small = ground arith

kept_file :
    (w : World) (id size : ℕ) (hash hash' : Text) (f : Stored) (s : DeviceSet)
    → (metadata_file hash' == metadata_file hash) ≡ false
    → lookup (metadata_file hash) (insert (metadata_file hash') f (left w id hash size s).files)
      ≡ some (stored (info w id hash size s))
kept_file w id size hash hash' f s ne =
    lookup-insert (metadata_file hash') (metadata_file hash) f (left w id hash size s).files
    ∙ rw ne (saved_file w id hash size s)

-- A device whose registration failed, since the pool's transaction could not be moved on after its
-- file was written, is found again in its file as soon as another device is registered.
pub load_metadata-register_device :
    (w w' : World) (id id' size size' : ℕ) (hash hash' : Text) (s : DeviceSet)
    → IsSettled s
    → s.new_transaction_id + 2 < 2 ^ 64
    → w.writes_file ≡ true
    → w.commits ≡ false
    → w'.writes_file ≡ true
    → w'.commits ≡ true
    → (metadata_file hash' == metadata_file hash) ≡ false
    → load_metadata hash (register_device w' id' hash' size' (register_device w id hash size s).0).0
      ≡ some (new_info hash id size (allocate_transaction_id s))
load_metadata-register_device w w' id id' size size' hash hash' s v small f l f' d ne =
    ap (λ o. load_metadata hash (register_device w' id' hash' size' o.0).0)
      (register_device_lost w id hash size s f l (fresh w id hash size s v))
    ∙ ap (λ o. load_metadata hash o.0)
        (register_device_done w' id' hash' size' (left w id hash size s) f' d
          (again w w' id id' size size' hash hash' s v small))
    ∙ load_present hash (completed w' id' hash' size' (left w id hash size s))
        (kept_file w id size hash hash' (stored (info w' id' hash' size' (left w id hash size s))) s
          ne)
        (older w w' id id' size size' hash hash' s small)
