-- ===== src/Tod/Tests.antt =====
-- A table with two devices.
use Prim.{tt}
use libartnet.Base.{refl, arith, none, some, replicate, set}
use libartnet.Tod.{Tod, add_tod_uid, remove_tod_uid}
use libartnet.Tod.Laws.{IsValid}
use libartnet.Tod.Bag.{Added, Removed, add_tod_uid-Added, remove_tod_uid-Removed}

abbrev two_devices : Tod
two_devices = record {
  block = some (set (set (replicate 100 0) 0 71) 1 72);
  length = 2;
  max_length = 100;
}

two_devices-IsValid : IsValid two_devices
two_devices-IsValid = record { in_use = omega arith; block_fits = refl }

add_example : Added two_devices 73 (add_tod_uid none two_devices 73)
add_example = add_tod_uid-Added none two_devices 73 tt two_devices-IsValid

remove_example : Removed two_devices 71 (remove_tod_uid two_devices 71)
remove_example = remove_tod_uid-Removed two_devices 71 two_devices-IsValid
