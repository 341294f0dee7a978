-- ===== src/Tests/Bench.antt =====
-- A controller and a system in which every call succeeds.
use myir_bluetooth.Common.{true, Option, none, some, [], ◌∷◌, codes}
use myir_bluetooth.Config.{nordic_config}
use myir_bluetooth.Platform.{Env, Evt}
use myir_bluetooth.World.{World, initial}

abbrev pub bench : Env
bench = record {
  alloc_answer = λ t size. some 4096;
  xmit_answer = λ t opcode p. true;
  open_answer = λ t path. some 5;
  read_answer = λ t fd n. some (codes "bluetooth");
  write_answer = λ t fd bytes. true;
  dir_answer = λ t path. some (codes "BCM4339A0.hcd" ∷ []);
  property_answer = λ t key. codes "0";
  timer_answer = λ t. some 1;
  termios_answer = λ t fd. 0;
  cfmakeraw = λ word. word;
  or_crtscts = λ word bits. word;
  cfsetspeed = λ word speed. word;
  bt_hc_hdr_size = 8;
  sco_codec_cvsd = 1;
  sco_codec_msbc = 2;
  ch_max = 4;
  decimal = λ n. n ∷ [];
  conf_answer = λ path. some (codes "FwPatchFileName = a.hcd\n");
  atoi = λ text. some 0;
}

-- The same system with no buffer to be had.
abbrev pub drained : Env
drained = record bench { alloc_answer = λ t size. none }

abbrev pub cold : World
cold = initial nordic_config

-- With callbacks, and no file held.
abbrev pub ready : World
ready = record cold {
  cbacks = true;
  serial = record cold.serial { fd = none };
  hw = record cold.hw { fw_fd = none };
}

-- "Command complete" with status 0 for HCI_RESET.
abbrev pub reset_done : Evt
reset_done = record { addr = 8192; bytes = 0x0E ∷ 4 ∷ 1 ∷ 0x03 ∷ 0x0C ∷ 0 ∷ [] }

abbrev pub value_or : Option World → World → World
value_or none w = w
value_or (some u) w = u
