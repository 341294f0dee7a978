-- ===== src/Hardware/Formats/Audio.antt =====
-- The layout of the commands on audio, on the low power mode and at the end.
use myir_bluetooth.Common.{
  ℕ, ◌+◌, Bool, true, false, some, [], ◌∷◌, ◌≡◌, arith, ◌==◌, Bool-cases, Option-cases, inl, inr,
  bind_some,
}
use myir_bluetooth.Config.{Config, sco_bytes, pcm_bytes, i2s_bytes}
use myir_bluetooth.Hardware.Formats.{misfit, packet_fits, sleep_fits, Formed}
use myir_bluetooth.Hardware.Hci.{evt_status, evt_opcode, uint16_to_stream, hci_cmd_preamble_size}
use myir_bluetooth.Hardware.Lpm.{
  hw_lpm_enable, send_sleep_mode, lpm_refused, hw_lpm_ctrl_cback, hw_epilog_process,
  hw_epilog_cback, lpm_cmd_param_size,
}
use myir_bluetooth.Hardware.Sco.{
  select_codec, send_params, report_audio, hw_sco_i2spcm_config, hw_sco_config, free_event,
  hw_sco_i2spcm_config_from_command, send_next, after_reply, hw_sco_i2spcm_cfg_cback,
  hw_set_sco_codec, sco_settings, set_sco,
}
use myir_bluetooth.Platform.{Env, Evt, Packet, Cback}
use myir_bluetooth.Upio.Signal.{upio_set, set_lpm_mode, set_bt_wake}
use myir_bluetooth.World.{World, Action, Pio, call_alloc}

module _ (c : Config) (e : Env) where
  params-Formed :
      (opcode : ℕ) (p : Packet) (k : Cback) (size : ℕ) (w : World)
      → misfit opcode p ≡ 0
      → Formed w (send_params c e opcode p k size w).0
  unfolding send_params
  params-Formed opcode p k size w fits = ground arith

  pub codec-Formed : (codec : ℕ) (w : World) → Formed w (hw_set_sco_codec c e codec w).0
  unfolding hw_set_sco_codec
  codec-Formed codec w = elim (Bool-cases (codec == e.sco_codec_msbc)) [
    | inl wide ↦
        rw wide (
          params-Formed _ _ _ _ w
            (packet_fits 0xFC7E (1 ∷ uint16_to_stream codec []) (omega arith)))
    | inr narrow ↦ rw narrow (params-Formed _ _ _ _ w (packet_fits 0xFC7E (0 ∷ []) (omega arith)))
  ]

  pub i2spcm-Formed :
      (codec : ℕ) (w : World) {w' : World}
      → hw_sco_i2spcm_config c e codec w ≡ some w'
      → Formed w w'
  unfolding hw_sco_i2spcm_config
  i2spcm-Formed codec w h = ground (
    arith,
    packet_fits 0xFC6D (i2s_bytes (select_codec c e codec w.sco).i2spcm_param) (omega arith),
  )

  pub sco_config-Formed : (w : World) {w' : World} → hw_sco_config c e w ≡ some w' → Formed w w'
  unfolding hw_sco_config
  sco_config-Formed w {w'} h =
      let u : World = set_sco (sco_settings c w.sco) w in
      elim (Bool-cases u.sco.bus_i2s) [
        | inl i2s ↦ elim (Option-cases (hw_sco_i2spcm_config c e e.sco_codec_cvsd u)) [
          | inl fault ↦ absurd (ground arith)
          | inr (v, at) ↦ ground (arith, i2spcm-Formed e.sco_codec_cvsd u at)
        ]
        | inr pcm ↦ ground arith
      ]

  next-Formed :
      (opcode : ℕ) (p : Packet) (size : ℕ) (w : World)
      → misfit opcode p ≡ 0
      → Formed w (send_next c e opcode p size w)
  unfolding send_next report_audio
  next-Formed opcode p size w fits =
      ground (arith, params-Formed opcode p Cback.sco_i2spcm_cfg size w fits)

  after_reply-Formed : (opcode : ℕ) (w : World) → Formed w (after_reply c e opcode w)
  unfolding after_reply report_audio
  after_reply-Formed opcode w = ground (
    arith,
    next-Formed 0xFC1C _ 5 w (packet_fits 0xFC1C (sco_bytes w.sco.sco_param) (omega arith)),
    next-Formed 0xFC1E _ 5 w (packet_fits 0xFC1E (pcm_bytes c.pcm_data_fmt) (omega arith)),
  )

  pub cfg_reply-Formed :
      (v : Evt) (w : World) {w' : World} → hw_sco_i2spcm_cfg_cback c e v w ≡ some w' → Formed w w'
  unfolding hw_sco_i2spcm_cfg_cback report_audio free_event
  cfg_reply-Formed v w h =
      let (opcode, _, h₁) = bind_some (evt_opcode v) _ h in
      let (status, _, h₂) = bind_some (evt_status v) _ h₁ in
      ground (arith, after_reply-Formed opcode (free_event c e v w))

  pub codec_reply-Formed :
      (v : Evt) (codec : ℕ) (w : World) {w' : World}
      → hw_sco_i2spcm_config_from_command c e v codec w ≡ some w'
      → Formed w w'
  unfolding hw_sco_i2spcm_config_from_command report_audio free_event
  codec_reply-Formed v codec w h =
      let (status, _, h₁) = bind_some (evt_status v) _ h in
      elim (Bool-cases (status == 0)) [
        | inl good ↦ ground (arith, i2spcm-Formed codec (free_event c e v w) (rw good at h₁))
        | inr bad ↦ ground arith
      ]

  lpm_mode-Formed : (a : Action) (w : World) → Formed w (set_lpm_mode c e a w)
  unfolding set_lpm_mode
  lpm_mode-Formed a w = ground arith

  bt_wake-Formed : (a : Action) (w : World) → Formed w (set_bt_wake c e a w)
  unfolding set_bt_wake
  bt_wake-Formed a w = ground arith

  pub upio_set-Formed :
      (p : Pio) (a : Action) (polarity : ℕ) (w : World) → Formed w (upio_set c e p a polarity w)
  unfolding upio_set
  upio_set-Formed Pio.lpm_mode a polarity w = lpm_mode-Formed a w
  upio_set-Formed Pio.bt_wake a polarity w = bt_wake-Formed a w
  upio_set-Formed Pio.host_wake a polarity w = omega arith

  sleep_mode-Formed :
      (on : Bool) (addr : ℕ) (w : World) → Formed w (send_sleep_mode c e on addr w).0
  unfolding send_sleep_mode
  sleep_mode-Formed true addr w =
      ground (arith, upio_set-Formed Pio.lpm_mode Action.assert 0 w, sleep_fits c e true)
  sleep_mode-Formed false addr w =
      ground (arith, upio_set-Formed Pio.lpm_mode Action.deassert 0 w, sleep_fits c e false)

  pub lpm_enable-Formed : (on : Bool) (w : World) → Formed w (hw_lpm_enable c e on w).0
  unfolding hw_lpm_enable lpm_refused
  lpm_enable-Formed on w =
      let size : ℕ = e.bt_hc_hdr_size + hci_cmd_preamble_size + lpm_cmd_param_size in
      elim (Option-cases (call_alloc e size w).1) [
        | inl full ↦ ground arith
        | inr (addr, got) ↦ ground (arith, sleep_mode-Formed on addr (call_alloc e size w).0)
      ]

  pub lpm_reply-Formed :
      (v : Evt) (w : World) {w' : World} → hw_lpm_ctrl_cback c e v w ≡ some w' → Formed w w'
  unfolding hw_lpm_ctrl_cback
  lpm_reply-Formed v w h = let (status, _, k) = bind_some (evt_status v) _ h in ground arith

  pub epilog-Formed : (w : World) → Formed w (hw_epilog_process c e w)
  unfolding hw_epilog_process
  epilog-Formed w = ground (arith, packet_fits 0x0C03 [] (omega arith))

  pub epilog_reply-Formed :
      (v : Evt) (w : World) {w' : World} → hw_epilog_cback c e v w ≡ some w' → Formed w w'
  unfolding hw_epilog_cback
  epilog_reply-Formed v w h =
      let (status, _, k) = bind_some (evt_status v) _ h in
      let (opcode, _, k') = bind_some (evt_opcode v) _ k in ground arith
