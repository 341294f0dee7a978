-- ===== src/Vendor/Interface.antt =====
-- `init`, `op` and `cleanup` of libbt/src/bt_vendor_nordic.c. `none` is undefined behaviour, or
-- fuel that ran out in the search for the rfkill node.
use myir_bluetooth.Common.{
  ℕ, ◌+◌, not, Bool, true, false, Option, none, some, List, replicate, if◌then◌else◌, ◌>>=◌,
}
use myir_bluetooth.Config.{Config}
use myir_bluetooth.Hardware.Handler.{hw_config_start}
use myir_bluetooth.Hardware.Lpm.{
  hw_lpm_enable, hw_lpm_get_idle_timeout, hw_lpm_set_wake_state, hw_epilog_process,
}
use myir_bluetooth.Hardware.Sco.{hw_sco_config, hw_set_sco_codec}
use myir_bluetooth.Platform.{Env, success, epilog_cb}
use myir_bluetooth.Upio.Power.{upio_set_bluetooth_power, upio_bt_power_off, upio_bt_power_on}
use myir_bluetooth.Upio.Signal.{upio_init, upio_cleanup}
use myir_bluetooth.Userial.Baud.{baud_115200}
use myir_bluetooth.Userial.Port.{
  UserialCfg, userial_vendor_init, userial_vendor_open, userial_vendor_close,
}
use myir_bluetooth.World.{World, BdAddr, log}

-- An `int` that is returned: `value n` is n, and `minus n` is -n.
pub data RetVal : Type 0 where
  value minus : ℕ → RetVal

-- The opcodes with what `param` points to. The flags say that the state is BT_VND_PWR_ON, that the
-- mode is not 0, and that the state is BT_VND_LPM_WAKE_ASSERT.
pub data Op : Type 0 where
  power_ctrl : Bool → Op
  fw_cfg sco_cfg userial_open userial_close get_lpm_idle_timeout : Op
  lpm_set_mode lpm_wake_set_state : Bool → Op
  set_audio_state : (codec : ℕ) → Op
  epilog : Op

-- What is stored through `param`.
pub data Out : Type 0 where
  nothing : Out
  fds : List ℕ → Out
  timeout : ℕ → Out

pub record Reply : Type 0 where
  pub world : World
  pub retval : RetVal
  pub out : Out

abbrev pub done : World → Reply
done w = record { world = w; retval = value 0; out = nothing }

abbrev pub returns : RetVal → World → Reply
returns r w = record { world = w; retval = r; out = nothing }

-- 8 data bits, no parity, 1 stop bit.
abbrev pub userial_init_cfg : UserialCfg
userial_init_cfg = record { fmt = 512 + 8 + 1; baud = baud_115200 }

module _ (c : Config) (e : Env) where
  -- The address is copied from the stack's memory.
  unfoldable pub init : Bool → BdAddr → World → World × RetVal
  init p_cb local_bdaddr w =
      if p_cb
      then (let w₁ : World = upio_init c e (userial_vendor_init c e w) in
          (record w₁ { cbacks = true; bd_addr = local_bdaddr }, value 0))
      else (w, minus 1)

  unfoldable pub hw_set_audio_state : ℕ → World → World × RetVal
  hw_set_audio_state codec w =
      if not c.sco_cfg_included
      then (w, minus 256)
      else if not w.cbacks
      then (w, minus 1)
      else (let (w₁, sent) = hw_set_sco_codec c e codec w in
          (w₁, if sent then value 0 else minus 1))

  -- Power goes off first in each case.
  unfoldable pub power : ℕ → Bool → World → Option World
  power fuel on w = do
    (w₁, _) ← upio_set_bluetooth_power e fuel upio_bt_power_off w
    elim on [
      | true ↦ (do (w₂, _) ← upio_set_bluetooth_power e fuel upio_bt_power_on w₁; some w₂)
      | false ↦ some (hw_lpm_set_wake_state c e false w₁)
    ]

  unfoldable pub open_channels : World → Reply
  open_channels w =
      let (w₁, fd) = userial_vendor_open c e userial_init_cfg w in
      elim fd [
        | none ↦ done w₁
        | some n ↦ record { world = w₁; retval = value 1; out = fds (replicate e.ch_max n) }
      ]

  unfoldable pub op : ℕ → Op → World → Option Reply
  op fuel (power_ctrl on) w = do w₁ ← power fuel on w; some (done w₁)
  op fuel fw_cfg w = some (done (hw_config_start c e w))
  op fuel sco_cfg w =
      if c.sco_cfg_included
      then (do w₁ ← hw_sco_config c e w; some (done w₁))
      else some (returns (minus 1) w)
  op fuel userial_open w = some (open_channels w)
  op fuel userial_close w = some (done (userial_vendor_close c e w))
  op fuel get_lpm_idle_timeout w =
      some (record { world = w; retval = value 0; out = timeout (hw_lpm_get_idle_timeout c w) })
  op fuel (lpm_set_mode mode) w =
      let (w₁, ret) = hw_lpm_enable c e mode w in some (returns (value (if ret then 1 else 0)) w₁)
  op fuel (lpm_wake_set_state state) w = some (done (hw_lpm_set_wake_state c e state w))
  op fuel (set_audio_state codec) w =
      let (w₁, r) = hw_set_audio_state codec w in some (returns r w₁)
  op fuel epilog w = some (
      done (
        if c.hw_end_with_hci_reset
        then hw_epilog_process c e w
        else if w.cbacks
        then log (epilog_cb success) w
        else w))

  unfoldable pub cleanup : World → World
  cleanup w = record (upio_cleanup c e w) { cbacks = false }
