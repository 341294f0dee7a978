-- ===== src/Upio/Power.antt =====
-- Power through the rfkill nodes, in libbt/src/upio.c. `true` is the return value 0, `false` is -1.
use myir_bluetooth.Common.{
  ℕ, zero, suc, Bool, true, false, ◌&&◌, Option, none, some, [], ◌∷◌, ◌++◌, ◌==◌, leb,
  if◌then◌else◌, Bytes, codes, take, length, equal, ◌>>=◌,
}
use myir_bluetooth.Platform.{Env, property_get, read_file, write_file, close_file}
use myir_bluetooth.Upio.Signal.{set_upio}
use myir_bluetooth.World.{World, log, call_open}

abbrev pub upio_bt_power_off : ℕ
upio_bt_power_off = 0

abbrev pub upio_bt_power_on : ℕ
upio_bt_power_on = 1

-- `buffer`, by the `switch` on the argument.
abbrev pub power_char : ℕ → ℕ
power_char on = if on == upio_bt_power_on then b'1' else b'0'

-- `char path[64]`, which `snprintf` never overruns.
unfoldable pub type_path : Env → ℕ → Bytes
type_path e id = take 63 (codes "/sys/class/rfkill/rfkill" ++ (e.decimal id ++ codes "/type"))

unfoldable pub state_path : Env → ℕ → Bytes
state_path e id = codes "/sys/class/rfkill/rfkill" ++ (e.decimal id ++ codes "/state")

-- `sz >= 9 && memcmp(buf, "bluetooth", 9) == 0`; a failed read gives -1.
unfoldable pub is_bluetooth : Option Bytes → Bool
is_bluetooth none = false
is_bluetooth (some buf) = leb 9 (length buf) && equal (take 9 buf) (codes "bluetooth")

module _ (e : Env) where
  unfoldable pub is_property_one : Bytes → World → World × Bool
  is_property_one key w =
      let value : Bytes = e.property_answer w.trace key in
      (log (property_get key value) w, equal value (codes "1"))

  unfoldable pub is_emulator_context : World → World × Bool
  unfolding is_property_one
  is_emulator_context w = is_property_one (codes "ro.boot.qemu") w

  unfoldable pub is_rfkill_disabled : World → World × Bool
  unfolding is_property_one
  is_rfkill_disabled w = is_property_one (codes "ro.rfkilldisabled") w

  -- The body of the loop for one node whose file is open.
  unfoldable pub read_type : ℕ → World → World × Bool
  read_type fd w =
      let r : Option Bytes = e.read_answer w.trace fd 16 in
      (log (close_file fd) (log (read_file fd 16 r) w), is_bluetooth r)

  -- The loop of `init_rfkill` from node `id` on: `none` if the fuel runs out.
  unfoldable pub scan_rfkill : ℕ → ℕ → World → Option (World × Bool)
  scan_rfkill zero id w = none
  scan_rfkill (suc fuel) id w =
      let (w₁, fd) = call_open e (type_path e id) w in
      elim fd [
        | none ↦ some (w₁, false)
        | some n ↦
            let (w₂, found) = read_type n w₁ in
            elim found [
              | true ↦ some (
                set_upio
                    (record w₂.upio { rfkill_id = some id; rfkill_state_path = state_path e id })
                    w₂,
                true,
              )
              | false ↦ scan_rfkill fuel (suc id) w₂
            ]
      ]

  unfoldable pub init_rfkill : ℕ → World → Option (World × Bool)
  init_rfkill fuel w =
      let (w₁, disabled) = is_rfkill_disabled w in
      elim disabled [ true ↦ some (w₁, false) | false ↦ scan_rfkill fuel 0 w₁ ]

  -- `open`, `write` and `close` on the state node.
  unfoldable pub write_power : ℕ → World → World × Bool
  write_power on w =
      let (w₁, fd) = call_open e w.upio.rfkill_state_path w in
      elim fd [
        | none ↦ (w₁, false)
        | some n ↦
            let buffer : Bytes = power_char on ∷ [] in
            let written : Bool = e.write_answer w₁.trace n buffer in
            (log (close_file n) (log (write_file n buffer written) w₁), written)
      ]

  -- Behind the test of the property: find the node first if it is not known.
  unfoldable pub power_by_rfkill : ℕ → ℕ → World → Option (World × Bool)
  power_by_rfkill fuel on w = elim w.upio.rfkill_id [
    | some _ ↦ some (write_power on w)
    | none ↦ do
      (w₁, found) ← init_rfkill fuel w
      some (if found then write_power on w₁ else (w₁, false))
  ]

  unfoldable pub upio_set_bluetooth_power : ℕ → ℕ → World → Option (World × Bool)
  upio_set_bluetooth_power fuel on w =
      let (w₁, emulated) = is_emulator_context w in
      if emulated
      then some (
          if w₁.upio.bt_emul_enable == on
          then (w₁, false)
          else (set_upio (record w₁.upio { bt_emul_enable = on }) w₁, true))
      else (let (w₂, disabled) = is_rfkill_disabled w₁ in
          if disabled then some (w₂, true) else power_by_rfkill fuel on w₂)
