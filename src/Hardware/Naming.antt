-- ===== src/Hardware/Naming.antt =====
-- The controller's name in libbt/src/hardware.c: the string in the event, the chip's name in it, and
-- the settlement delay that goes by that name.
use myir_bluetooth.Common.{
  ℕ, suc, ◌-◌, not, ◌||◌, Option, none, some, [], ◌∷◌, ◌++◌, ◌==◌, ltb, if◌then◌else◌, Bytes, codes,
  length, take, ◌>>=◌,
}
use myir_bluetooth.Config.{Config}
use myir_bluetooth.Hardware.Hci.{local_name_buffer_len}
use myir_bluetooth.Hardware.Patch.{toupper, strstr}
use myir_bluetooth.World.{Hw}

-- `fw_settlement_table`: the chips with a delay of their own, and the general delay.
unfoldable pub table_delay : Bytes → ℕ
table_delay chip = elim (strstr chip (codes "BCM43241")) [
  | some _ ↦ 200
  | none ↦ elim (strstr chip (codes "BCM43341")) [ some _ ↦ 100 | none ↦ 100 ]
]

unfoldable pub look_up_fw_settlement_delay : Config → Hw → ℕ
unfolding table_delay
look_up_fw_settlement_delay c hw =
    if ltb 0 c.fw_patch_settlement_delay_ms
    then c.fw_patch_settlement_delay_ms
    else elim (if c.runtime_tuning_enabled then hw.settlement_delay else none) [
      | some ms ↦ ms
      | none ↦ table_delay hw.local_chip_name
    ]

-- The loop over the local name from byte `i` on: `none` reads past the end of the buffer.
unfoldable pub upcase_name : ℕ → Bytes → Option Bytes
upcase_name i [] = none
upcase_name i (x ∷ s) =
    let rest = upcase_name (suc i) s in
    if ltb i local_name_buffer_len || not (x == 0)
    then (do s' ← rest; some (toupper x ∷ s'))
    else some (x ∷ s)

-- A C string in memory, without its NUL.
unfoldable pub c_string : Bytes → Bytes
c_string [] = []
c_string (x ∷ s) = if x == 0 then [] else x ∷ c_string s

-- `local_chip_name`, the string at `p_name`, how many bytes of the name lie in front of it, and
-- how many bytes `strncpy` writes there.
pub record ChipName : Type 0 where
  pub stored : Bytes
  pub p_name : Bytes
  pub offset : ℕ
  pub written : ℕ

unfoldable pub chip_4343 : Config → Bytes → Option Bytes
chip_4343 c name = if c.use_bluetooth_bcm4343 then strstr name (codes "4343") else none

-- The `if`, `else if` and `else` on the name.
unfoldable pub chip_name : Config → Bytes → ChipName
unfolding chip_4343
chip_name c name = elim (strstr name (codes "BCM")) [
  | some at ↦ record {
    stored = take 31 at;
    p_name = at;
    offset = length name - length at;
    written = 0;
  }
  | none ↦ elim (chip_4343 c name) [
    | some at ↦
        let text : Bytes = take 30 (codes "BCM" ++ at) in
        record { stored = text; p_name = text; offset = length name - length at; written = 31 }
    | none ↦ record { stored = codes "UNKNOWN"; p_name = name; offset = 0; written = 0 }
  ]
]
