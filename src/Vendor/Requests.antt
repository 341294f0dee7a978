-- ===== src/Vendor/Requests.antt =====
-- The same for the requests of the stack and for the replies to commands.
use myir_bluetooth.Common.{
  ℕ, ◌+◌, ◌≤◌, Bool, some, ◌≡◌, ◌⊎◌, inl, inr, refl, arith, Option-cases, Bool-cases, if◌then◌else◌,
}
use myir_bluetooth.Config.{Config}
use myir_bluetooth.Hardware.Handler.{hw_config_start}
use myir_bluetooth.Hardware.Hci.{hci_cmd_preamble_size}
use myir_bluetooth.Hardware.Lpm.{
  lpm_cmd_param_size, hw_lpm_enable, send_sleep_mode, lpm_refused, hw_epilog_process,
}
use myir_bluetooth.Hardware.Sco.{
  set_sco, sco_settings, send_params, hw_sco_i2spcm_config, hw_sco_config, hw_set_sco_codec,
}
use myir_bluetooth.Hardware.Sleep.{upio_lpm-Silent}
use myir_bluetooth.Hardware.Progress.{hw_config_start-IsReady}
use myir_bluetooth.Hardware.Machine.{IsReady}
use myir_bluetooth.Ledger.{
  allocs, deallocs, sends, timers_made, timers_deleted, once_at, takes, gives,
}
use myir_bluetooth.Platform.{Env, Packet, Cback}
use myir_bluetooth.Upio.Timers.{bit}
use myir_bluetooth.Userial.Port.{
  userial_vendor_open, check_format, open_port, set_up, userial_vendor_close,
}
use myir_bluetooth.Vendor.Accounts.{
  Accounted, Beside, outcomes, upio_set-Beside, wake_state-Beside, power-Beside,
}
use myir_bluetooth.Vendor.Interface.{
  Op, op, power, hw_set_audio_state, open_channels, Reply, power_ctrl, fw_cfg, sco_cfg,
  userial_open, userial_close, get_lpm_idle_timeout, lpm_set_mode, lpm_wake_set_state,
  set_audio_state, epilog,
}
use myir_bluetooth.World.{World, Action, Pio, assert, deassert, call_alloc}

-- The operations that ask for an outcome.
abbrev pub request : Op → ℕ
request fw_cfg = 1
request sco_cfg = 1
request (lpm_set_mode _) = 1
request (set_audio_state _) = 1
request epilog = 1
request _ = 0

module _ (c : Config) (e : Env) (a : ℕ) where
  start-Accounted : (w : World) → Accounted a 0 1 0 w (hw_config_start c e w)
  unfolding hw_config_start
  start-Accounted w = ground arith

  send_params-Beside :
      (opcode : ℕ) (p : Packet) (k : Cback) (size : ℕ) (w : World)
      → Beside a 0 1 0 w (send_params c e opcode p k size w).0
  unfolding send_params
  send_params-Beside opcode p k size w = ground arith

  pub i2spcm-Beside :
      (codec : ℕ) (w : World) {w' : World}
      → hw_sco_i2spcm_config c e codec w ≡ some w'
      → Beside a 0 1 0 w w'
  unfolding hw_sco_i2spcm_config
  i2spcm-Beside codec w h = ground arith

  sco_config-Beside : (w : World) {w' : World} → hw_sco_config c e w ≡ some w' → Beside a 0 1 0 w w'
  unfolding hw_sco_config
  sco_config-Beside w {w'} h =
      let u : World = set_sco (sco_settings c w.sco) w in
      elim (Bool-cases u.sco.bus_i2s) [
        | inl i2s ↦ elim (Option-cases (hw_sco_i2spcm_config c e e.sco_codec_cvsd u)) [
          | inl fault ↦ absurd (ground arith)
          | inr (v, at) ↦ ground (arith, i2spcm-Beside e.sco_codec_cvsd u at)
        ]
        | inr pcm ↦ ground arith
      ]

  audio_state-Beside : (codec : ℕ) (w : World) → Beside a 0 1 0 w (hw_set_audio_state c e codec w).0
  unfolding hw_set_audio_state hw_set_sco_codec
  audio_state-Beside codec w = grind (arith, send_params-Beside)

  -- What `send_sleep_mode` does with the buffer that it is given.
  sleep_mode-Beside :
      (action : Action) (on : Bool) (addr : ℕ) (w : World)
      → action ≡ (if on then assert else deassert)
      → let r = send_sleep_mode c e on addr w in
        (sends r.0.trace ≡ sends w.trace + bit r.1)
        × (outcomes r.0.trace ≡ outcomes w.trace)
        × (sends r.0.trace + deallocs r.0.trace ≡ sends w.trace + deallocs w.trace + 1)
        × (allocs r.0.trace ≡ allocs w.trace)
        × (gives a r.0.trace + takes a w.trace
            ≤ gives a w.trace + takes a r.0.trace + once_at addr a)
        × (timers_made r.0.trace + timers_deleted w.trace + bit w.upio.timer_created
            ≡ timers_made w.trace + timers_deleted r.0.trace + bit r.0.upio.timer_created)
        × (r.0.cbacks ≡ w.cbacks)
        × (r.0.hw ≡ w.hw)
  unfolding send_sleep_mode
  sleep_mode-Beside action on addr w at =
      ground (arith, upio_lpm-Silent c e action w, upio_set-Beside c e a Pio.lpm_mode action 0 w)

  lpm_enable-Beside : (on : Bool) (w : World) → Beside a 0 1 0 w (hw_lpm_enable c e on w).0
  unfolding hw_lpm_enable lpm_refused
  lpm_enable-Beside on w =
      let size : ℕ = e.bt_hc_hdr_size + hci_cmd_preamble_size + lpm_cmd_param_size in
      elim (Option-cases (call_alloc e size w).1) [
        | inl full ↦ ground arith
        | inr (addr, got) ↦ ground (
          arith,
          sleep_mode-Beside (if on then assert else deassert) on addr (call_alloc e size w).0 refl,
        )
      ]

  epilog-Beside : (w : World) → Beside a 0 1 0 w (hw_epilog_process c e w)
  unfolding hw_epilog_process
  epilog-Beside w = ground arith

  open-Beside : (w : World) → Beside a 0 0 0 w (open_channels c e w).world
  unfolding open_channels userial_vendor_open check_format open_port set_up
  open-Beside w = ground arith

  close-Beside : (w : World) → Beside a 0 0 0 w (userial_vendor_close c e w)
  unfolding userial_vendor_close
  close-Beside w = ground arith

  pub op-Accounted :
      (fuel : ℕ) (o : Op) (w : World) {r : Reply}
      → op c e fuel o w ≡ some r
      → Accounted a 0 (request o) 0 w r.world × ((r.world.hw ≡ w.hw) ⊎ IsReady r.world)
  unfolding op
  op-Accounted fuel (power_ctrl on) w h = elim (Option-cases (power c e fuel on w)) [
    | inl out ↦ absurd (ground arith)
    | inr (v, at) ↦ let b = power-Beside c e a fuel on w at in (ground arith, inl (ground arith))
  ]
  op-Accounted fuel fw_cfg w h =
      let b = start-Accounted w in
      let ready = hw_config_start-IsReady c e w in (ground arith, inr (ground arith))
  op-Accounted fuel sco_cfg w h = elim (Bool-cases c.sco_cfg_included) [
    | inl included ↦ elim (Option-cases (hw_sco_config c e w)) [
      | inl fault ↦ absurd (ground arith)
      | inr (v, at) ↦ let b = sco_config-Beside w at in (ground arith, inl (ground arith))
    ]
    | inr left_out ↦ (ground arith, inl (ground arith))
  ]
  op-Accounted fuel userial_open w h = let b = open-Beside w in (ground arith, inl (ground arith))
  op-Accounted fuel userial_close w h = let b = close-Beside w in (ground arith, inl (ground arith))
  op-Accounted fuel get_lpm_idle_timeout w h = (ground arith, inl (ground arith))
  op-Accounted fuel (lpm_set_mode mode) w h =
      let b = lpm_enable-Beside mode w in (ground arith, inl (ground arith))
  op-Accounted fuel (lpm_wake_set_state state) w h =
      let b = wake_state-Beside c e a state w in (ground arith, inl (ground arith))
  op-Accounted fuel (set_audio_state codec) w h =
      let b = audio_state-Beside codec w in (ground arith, inl (ground arith))
  op-Accounted fuel epilog w h = let b = epilog-Beside w in (ground arith, inl (ground arith))
