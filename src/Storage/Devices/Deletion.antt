-- ===== src/Storage/Devices/Deletion.antt =====
-- A device is deleted from the pool, from the set and from the disk, or it stays listed.
use docker.Common.{
  ◌≡◌, ◌∙◌, refl, sym, ap, subst, true, false, Option, none, some, inl, inr, List, Text, Bool-cases,
  ==_refl, nat_eq, text_eq,
}
use docker.Common.Maps.{
  lookup, insert, erase, contains, remove, lookup-insert, lookup-erase, contains-remove,
}
use docker.Storage.Metadata.{
  DevInfo, DeviceSet, DeviceError, delete_error, remove_error, World, metadata_file,
  allocate_transaction_id, remove_metadata,
}
use docker.Storage.Devices.{device_name, delete_id, is_active}
use docker.Storage.Devices.Removal.{
  rounds, remove_device_and_wait, forgotten, forget, delete_removed, discarded, delete_active,
  delete_info,
}
use docker.Storage.Devices.Kernel.{
  SameDevices, waited-Same, remove_device-Same, choose-Same, SameDevices-trans, discarded-Same,
}

abbrev pub Deleted : DevInfo → DeviceSet → DeviceSet × Option DeviceError → Type 0
Deleted info s (s', none) =
    (lookup info.hash s'.devices ≡ none)
    × (lookup (metadata_file info.hash) s'.files ≡ none)
    × (contains info.device_id s'.pool.ids ≡ false)
Deleted info s (s', some e) = (lookup info.hash s'.devices ≡ some info) × (s'.files ≡ s.files)

module _ (w : World) (info : DevInfo) where
  forget_file :
      (s : DeviceSet)
      → w.removes_file ≡ true
      → forget w info (s, none) ≡ (
        record (allocate_transaction_id s) {
          devices = erase info.hash s.devices;
          files = erase (metadata_file info.hash) s.files;
        },
        none,
      )
  unfolding forget remove_metadata forgotten allocate_transaction_id
  forget_file s e = rw (e, forget) refl

  forget_failed :
      (s : DeviceSet)
      → w.removes_file ≡ false
      → forget w info (s, none) ≡ (
        record (allocate_transaction_id s) {
          devices = insert info.hash info (erase info.hash s.devices);
        },
        some remove_error,
      )
  unfolding forget remove_metadata forgotten allocate_transaction_id
  forget_failed s e = rw (e, forget) refl

  erased : (s : DeviceSet) → lookup info.hash (erase info.hash s.devices) ≡ none
  erased s = lookup-erase info.hash info.hash s.devices ∙ rw (==_refl info.hash) refl

  no_file :
      (s : DeviceSet)
      → lookup (metadata_file info.hash) (erase (metadata_file info.hash) s.files) ≡ none
  no_file s =
      lookup-erase (metadata_file info.hash) (metadata_file info.hash) s.files
      ∙ rw (==_refl (metadata_file info.hash)) refl

  listed : (m : List (Text × DevInfo)) → lookup info.hash (insert info.hash info m) ≡ some info
  listed m = lookup-insert info.hash info.hash info m ∙ rw (==_refl info.hash) refl

  forget-Deleted :
      (s s' : DeviceSet)
      → contains info.device_id s'.pool.ids ≡ false
      → s'.files ≡ s.files
      → Deleted info s (forget w info (s', none))
  unfolding allocate_transaction_id
  forget-Deleted s s' gone files = elim (Bool-cases w.removes_file) [
    | inl e ↦ subst (Deleted info s) (sym (forget_file s' e)) (erased s', no_file s', gone)
    | inr e ↦ subst (Deleted info s) (sym (forget_failed s' e)) (listed _, files)
  ]

  failed_before :
      (s s' : DeviceSet)
      → lookup info.hash s.devices ≡ some info
      → SameDevices s s'
      → Deleted info s (forget w info (s', some delete_error))
  unfolding forget
  failed_before s s' found v = (ap (λ m. lookup info.hash m) v.devices ∙ found, v.files)

  removed_id : (s : DeviceSet) → contains info.device_id (remove info.device_id s.pool.ids) ≡ false
  removed_id s =
      contains-remove info.device_id info.device_id s.pool.ids ∙ rw (==_refl info.device_id) refl

  delete_id_done :
      (s : DeviceSet)
      → w.deletes ≡ true
      → delete_id w info.device_id s
        ≡ (record s { pool = record (s.pool) { ids = remove info.device_id s.pool.ids } }, none)
  unfolding delete_id
  delete_id_done s e = rw (e, delete_id) refl

  delete_id_failed :
      (s : DeviceSet) → w.deletes ≡ false → delete_id w info.device_id s ≡ (s, some delete_error)
  unfolding delete_id
  delete_id_failed s e = rw (e, delete_id) refl

  delete_removed-Deleted :
      (s : DeviceSet) (r : DeviceSet × Option DeviceError)
      → lookup info.hash s.devices ≡ some info
      → SameDevices s r.0
      → Deleted info s (delete_removed w info r)
  unfolding delete_removed
  delete_removed-Deleted s (s', some e) found v =
      (ap (λ m. lookup info.hash m) v.devices ∙ found, v.files)
  delete_removed-Deleted s (s', none) found v = elim (Bool-cases w.deletes) [
    | inl e ↦
        subst (λ r. Deleted info s (forget w info r)) (sym (delete_id_done s' e))
          (forget-Deleted s _ (removed_id s') v.files)
    | inr e ↦
        subst (λ r. Deleted info s (forget w info r)) (sym (delete_id_failed s' e))
          (failed_before s s' found v)
  ]

  -- Deleting a device that is listed. If there is no error, the set does not list it, it has no file,
  -- and the pool has no device of its identifier; and after any error the set lists it as before and
  -- the files are as before.
  pub delete_info-Deleted :
      (s : DeviceSet)
      → lookup info.hash s.devices ≡ some info
      → Deleted info s (delete_info w info s)
  unfolding delete_info delete_active remove_device_and_wait
  delete_info-Deleted s found = delete_removed-Deleted s _ found (
      SameDevices-trans (discarded-Same w info s) (
        choose-Same (is_active w (device_name now info.hash) now) _ _
          (waited-Same w now _ (remove_device-Same w rounds 0 (device_name now info.hash) now))
          (record { devices = refl; mounts = refl; files = refl; ids = refl })))
    where
      now : DeviceSet
      now = discarded w info s
