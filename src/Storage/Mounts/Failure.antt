-- ===== src/Storage/Mounts/Failure.antt =====
-- A mount of the kernel that could not be taken away.
use docker.Common.{◌-◌, ◌≡◌, refl, false, some, List, ◌∷◌, Text, arith, nat_eq, text_eq}
use docker.Storage.Metadata.{DevInfo, DeviceSet, unmount_error, World}
use docker.Storage.Mounts.{put, mount_device, unmount_last, unmount_device}
use docker.Storage.Mounts.Branches.{IsWorking, unmount_one}
use docker.Storage.Mounts.Refinement.{unused, used, IsUsed, put-IsUsed, lookup_known, mount-IsUsed}

unmount_failed :
    (w : World) (info : DevInfo) (s : DeviceSet)
    → w.unmounts ≡ false
    → unmount_last w info s ≡ (s, some unmount_error)
unfolding unmount_last
unmount_failed w info s e = rw (e, unmount_last) refl

unmount-IsUnused :
    {hash : Text} {others : List Text} {p : Text} (w : World) (s : DeviceSet)
    → w.unmounts ≡ false
    → IsUsed hash others (used p 0) s
    → IsUsed hash (p ∷ others) unused (unmount_device w hash s).0
unfolding unmount_device
unmount-IsUnused {hash = hash} w s e v = rw (lookup_known hash s v.found) (
    rw (unmount_one w hash v.info s v.shows.0) (
      rw
        (unmount_failed w (record (v.info) { mount_count = v.info.mount_count - 1 })
          (put (record (v.info) { mount_count = v.info.mount_count - 1 }) s) e)
        (put-IsUsed _ s v.same (omega (arith, v.shows.0)) v.mounts)))

-- When the kernel refuses the unmount that the last user of a device asks for, the device counts as
-- not mounted although it is: the next MountDevice, on a kernel that works, mounts it once more on
-- top of that mount, at whichever path it is asked for.
pub mount_device-unmount_device :
    {hash : Text} {others : List Text} {p : Text} (w w' : World) (q mount_label : Text)
    (s : DeviceSet)
    → w.unmounts ≡ false
    → IsWorking w'
    → IsUsed hash others (used p 0) s
    → (mount_device w' hash q mount_label (unmount_device w hash s).0).0.pool.mounts
      ≡ q ∷ p ∷ others
mount_device-unmount_device {hash = hash} w w' q mount_label s e k v =
    (mount-IsUsed w' k (unmount_device w hash s).0 q mount_label unused
      (unmount-IsUnused w s e v)).mounts
