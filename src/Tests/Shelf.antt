-- ===== src/Tests/Shelf.antt =====
-- A controller that names its chip, and a system with a patch file of two records.
use myir_bluetooth.Common.{
  true, ℕ, ◌/◌, ◌%◌, ◌<◌, ◌^◌, none, some, List, [], ◌∷◌, ◌++◌, Bytes, codes, ◌≡◌, refl, arith,
  take, drop, replicate, ap,
}
use myir_bluetooth.Config.{Config, nordic_config}
use myir_bluetooth.Hardware.Hci.{evt_opcode}
use myir_bluetooth.Hardware.Patch.{
  toupper, strstr, has_prefix, join, needs_slash, find_match, matches, hw_strncmp, strncmp_from,
}
use myir_bluetooth.Hardware.Naming.{upcase_name, c_string, chip_name, chip_4343}
use myir_bluetooth.Link.Records.{PatchCommand, contents, IsPatch}
use myir_bluetooth.Link.Missing.{Lacks}
use myir_bluetooth.Link.Naming.{Offers}
use myir_bluetooth.Link.Peers.{Willing, Controller, IsFile, position}
use myir_bluetooth.Platform.{Env, Evt}
use myir_bluetooth.Tests.Bench.{bench}
use myir_bluetooth.World.{BdAddr}

-- A build that uses the controller's own address.
abbrev pub own_config : Config
own_config = record nordic_config { use_controller_bdaddr = true }

abbrev pub records : List PatchCommand
records =
    record { lo = 0x4C; hi = 0xFC; params = 1 ∷ 2 ∷ 3 ∷ [] }
    ∷ record { lo = 0x4E; hi = 0xFC; params = [] }
    ∷ []

-- Each `read` goes on where the last one ended.
abbrev pub shelf : Env
shelf = record bench {
  read_answer = λ t fd n. some (take n (drop (position fd t) (contents records)));
}

-- The same without a directory of patch files.
abbrev pub bare_shelf : Env
bare_shelf = record shelf { dir_answer = λ t path. none }

abbrev pub local_name : Bytes
local_name = codes "BCM4339a0" ++ replicate 239 0

abbrev pub answer_event : ℕ → Evt
answer_event opcode = record {
  addr = 8192;
  bytes = 0x0E ∷ 252 ∷ 1 ∷ (opcode % 256) ∷ (opcode / 256) ∷ 0 ∷ local_name;
}

pub answer_event-echo :
    (opcode : ℕ) → opcode < 2 ^ 16 → evt_opcode (answer_event opcode) ≡ some opcode
unfolding evt_opcode
answer_event-echo opcode small = ap some (omega arith)

abbrev pub controller : Controller
controller = record { reply = answer_event; success = λ opcode. refl; echo = answer_event-echo }

pub shelf-Willing : Willing shelf
shelf-Willing = record { buffer = λ t n. 4096; given = λ t n. refl; accepts = λ t opcode p. refl }

pub bare_shelf-Willing : Willing bare_shelf
bare_shelf-Willing = record {
  buffer = λ t n. 4096;
  given = λ t n. refl;
  accepts = λ t opcode p. refl;
}

pub records-IsFile : IsFile shelf 5 (contents records)
records-IsFile = record { reads = λ t n. refl }

pub records-IsPatch : IsPatch records
records-IsPatch = (
  omega arith,
  omega arith,
  omega arith,
  λ same. absurd (omega arith),
  (omega arith, omega arith, omega arith),
)

abbrev pub chip_file : Bytes
chip_file = codes "BCM4339A0.hcd"

pub records-Offers : Offers own_config shelf controller own_config.fw_patchfile_location chip_file 5
unfolding upcase_name toupper c_string chip_name chip_4343 strstr has_prefix find_match matches
    hw_strncmp strncmp_from join needs_slash
records-Offers = record {
  raw = codes "BCM4339A0" ++ replicate 239 0;
  upcased = refl;
  names = chip_file ∷ [];
  listed = λ t. refl;
  chosen = refl;
  short = omega arith;
  space = omega arith;
  room = omega arith;
  opened = λ t. refl;
}

pub bare-Lacks : Lacks own_config bare_shelf controller own_config.fw_patchfile_location
unfolding upcase_name toupper c_string chip_name chip_4343 strstr has_prefix
bare-Lacks = record {
  raw = codes "BCM4339A0" ++ replicate 239 0;
  upcased = refl;
  space = omega arith;
  absent = λ t. refl;
}

abbrev pub address : BdAddr
address = record { b0 = 1; b1 = 2; b2 = 3; b3 = 4; b4 = 5; b5 = 6 }
