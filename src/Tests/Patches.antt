-- ===== src/Tests/Patches.antt =====
-- The search for the patch file.
use myir_bluetooth.Common.{some, inl, ◌≡◌, refl, arith, Bytes, codes}
use myir_bluetooth.Hardware.Patch.{Found, hw_config_findpatch}
use myir_bluetooth.Hardware.Search.{Searched, findpatch-Searched}
use myir_bluetooth.Hardware.Termination.{hw_config_findpatch_total}
use myir_bluetooth.Tests.Bench.{bench, ready}

abbrev chip : Bytes
chip = codes "BCM4339A"

abbrev result : Found
result =
    (hw_config_findpatch_total bench 300 20 chip ready (omega arith) (omega arith) (inl refl)).0

findpatch-Searched_example : Searched bench 300 result chip ready
findpatch-Searched_example =
    findpatch-Searched bench 300 20 chip ready
      (hw_config_findpatch_total bench 300 20 chip ready (omega arith) (omega arith) (inl refl)).1

hw_config_findpatch_total_example :
    (r : Found) × (hw_config_findpatch bench 20 300 chip ready ≡ some r)
hw_config_findpatch_total_example =
    hw_config_findpatch_total bench 300 20 chip ready (omega arith) (omega arith) (inl refl)
