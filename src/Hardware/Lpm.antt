-- ===== src/Hardware/Lpm.antt =====
-- Low power mode and the epilog in libbt/src/hardware.c.
use myir_bluetooth.Common.{
  ℕ, ◌+◌, ◌*◌, ◌%◌, ◌^◌, Bool, true, false, not, ◌&&◌, Option, none, some, ◌∷◌, ◌==◌, if◌then◌else◌,
  Bytes, codes, replicate, ◌>>=◌,
}
use myir_bluetooth.Config.{Config, lpm_bytes}
use myir_bluetooth.Hardware.Hci.{
  hci_vsc_write_sleep_mode, hci_reset, hci_cmd_preamble_size, packet, bare_command,
  uint16_to_stream, evt_status, evt_opcode,
}
use myir_bluetooth.Hardware.Patch.{strstr}
use myir_bluetooth.Platform.{
  Env, Evt, Cback, Packet, OpResult, success, fail, dealloc, lpm_cb, epilog_cb,
}
use myir_bluetooth.Upio.Signal.{upio_set}
use myir_bluetooth.World.{World, assert, deassert, Pio, log, call_alloc, call_xmit}

abbrev pub lpm_cmd_param_size : ℕ
lpm_cmd_param_size = 12

abbrev pub op_result : Bool → OpResult
op_result true = success
op_result false = fail

-- The factor by which the chip counts idle time.
unfoldable pub idle_unit : Bytes → ℕ
idle_unit chip = elim (strstr chip (codes "BCM4325")) [
  | some _ ↦ 25
  | none ↦ elim (strstr chip (codes "BCM4358")) [
    | some _ ↦ 50
    | none ↦ elim (strstr chip (codes "BCM43013")) [ some _ ↦ 1 | none ↦ 300 ]
  ]
]

abbrev pub uint32 : ℕ → ℕ
uint32 n = n % 2 ^ 32

unfoldable pub hw_lpm_get_idle_timeout : Config → World → ℕ
hw_lpm_get_idle_timeout c w = uint32 (
    uint32 (c.lpm.host_stack_idle_threshold * c.lpm_idle_timeout_multiple)
    * idle_unit w.hw.local_chip_name)

module _ (c : Config) (e : Env) where
  -- The parameters of the command: `lpm_param`, or zeros.
  abbrev pub sleep_command : Bool → Packet
  sleep_command turn_on = packet (hci_cmd_preamble_size + lpm_cmd_param_size) (
      uint16_to_stream hci_vsc_write_sleep_mode (
        lpm_cmd_param_size ∷ (if turn_on then lpm_bytes c.lpm else replicate lpm_cmd_param_size 0)))

  -- What is done with a buffer at `addr`.
  unfoldable pub send_sleep_mode : Bool → ℕ → World → World × Bool
  send_sleep_mode turn_on addr w =
      let w₁ : World = upio_set c e Pio.lpm_mode (if turn_on then assert else deassert) 0 w in
      let (w₂, ret) =
        call_xmit e hci_vsc_write_sleep_mode addr (sleep_command turn_on) Cback.lpm_ctrl w₁ in
      (if ret then w₂ else log (dealloc addr) w₂, ret)

  unfoldable pub lpm_refused : World × Bool → World × Bool
  lpm_refused r = (if not r.1 && r.0.cbacks then log (lpm_cb fail) r.0 else r.0, r.1)

  unfoldable pub hw_lpm_enable : Bool → World → World × Bool
  hw_lpm_enable turn_on w =
      if w.cbacks
      then (let (w₁, p_buf) =
            call_alloc e (e.bt_hc_hdr_size + hci_cmd_preamble_size + lpm_cmd_param_size) w in
          lpm_refused
            (elim p_buf [ none ↦ (w₁, false) | some addr ↦ send_sleep_mode turn_on addr w₁ ]))
      else (w, false)

  unfoldable pub hw_lpm_ctrl_cback : Evt → World → Option World
  hw_lpm_ctrl_cback v w = do
    status ← evt_status v
    some (if w.cbacks then log (dealloc v.addr) (log (lpm_cb (op_result (status == 0))) w) else w)

  unfoldable pub hw_lpm_set_wake_state : Bool → World → World
  hw_lpm_set_wake_state wake_assert w =
      upio_set c e Pio.bt_wake (if wake_assert then assert else deassert) c.lpm.bt_wake_polarity w

  -- The reply of `xmit_cb` is not read.
  unfoldable pub hw_epilog_process : World → World
  hw_epilog_process w =
      if w.cbacks
      then (let (w₁, p_buf) = call_alloc e (e.bt_hc_hdr_size + hci_cmd_preamble_size) w in
          elim p_buf [
            | none ↦ log (epilog_cb fail) w₁
            | some addr ↦ (call_xmit e hci_reset addr (bare_command hci_reset) Cback.epilog w₁).0
          ])
      else w

  -- Status and opcode are read for a debugging message only.
  unfoldable pub hw_epilog_cback : Evt → World → Option World
  hw_epilog_cback v w = do
    status ← evt_status v
    opcode ← evt_opcode v
    some (if w.cbacks then log (epilog_cb success) (log (dealloc v.addr) w) else w)
