-- ===== src/Vendor/Promises.antt =====
-- No request is lost: what it takes for a request to lead to an outcome.
use myir_bluetooth.Common.{
  ℕ, ◌+◌, ◌≤◌, true, some, ◌≡◌, arith, inl, inr, Bool-cases, bind_some, ◌==◌, ◌≢◌, refl,
}
use myir_bluetooth.Config.{Config}
use myir_bluetooth.Hardware.Handler.{hw_config_start}
use myir_bluetooth.Hardware.Hci.{
  evt_status, evt_opcode, hci_cmd_preamble_size, bare_command, hci_reset,
}
use myir_bluetooth.Hardware.Lpm.{hw_lpm_ctrl_cback, hw_epilog_cback}
use myir_bluetooth.Hardware.Outcome.{Handled, Apart, hw_config_cback-Handled, hw_config_cback-Apart}
use myir_bluetooth.Hardware.Sco.{
  hw_sco_i2spcm_config, send_params, send_next, after_reply, report_audio, free_event,
  hw_sco_i2spcm_config_from_command, hw_sco_i2spcm_cfg_cback, hw_set_msbc_codec_cback,
  hw_set_cvsd_codec_cback, hw_set_sco_codec,
}
use myir_bluetooth.Ledger.{sends}
use myir_bluetooth.Link.Idle.{sleep_sent, reset_sent}
use myir_bluetooth.Link.Peers.{Willing, deliver}
use myir_bluetooth.Platform.{Env, Evt, Packet, Cback}
use myir_bluetooth.Vendor.Accounts.{outcomes}
use myir_bluetooth.Vendor.Interface.{
  Op, op, Reply, power_ctrl, fw_cfg, sco_cfg, userial_open, userial_close, get_lpm_idle_timeout,
  lpm_set_mode, lpm_wake_set_state, set_audio_state, epilog, hw_set_audio_state,
}
use myir_bluetooth.Vendor.Replies.{Ready, shut}
use myir_bluetooth.Vendor.Requests.{request, op-Accounted}
use myir_bluetooth.World.{World, call_alloc}

-- From `w` to `w'` at least `n` commands were sent or outcomes told.
abbrev pub Grows : ℕ → World → World → Type 0
Grows n w w' = sends w.trace + outcomes w.trace + n ≤ sends w'.trace + outcomes w'.trace

module _ (c : Config) (e : Env) where
  i2spcm-Grows :
      (codec : ℕ) (w : World) {w' : World}
      → hw_sco_i2spcm_config c e codec w ≡ some w'
      → Grows 1 w w'
  unfolding hw_sco_i2spcm_config
  i2spcm-Grows codec w h = ground arith

  send_next-Grows :
      (opcode : ℕ) (p : Packet) (size : ℕ) (w : World)
      → w.cbacks ≡ true
      → Grows 1 w (send_next c e opcode p size w)
  unfolding send_next send_params report_audio
  send_next-Grows opcode p size w on = ground arith

  after_reply-Grows :
      (opcode : ℕ) (w : World) → w.cbacks ≡ true → Grows 1 w (after_reply c e opcode w)
  unfolding after_reply report_audio
  after_reply-Grows opcode w on = grind (arith, send_next-Grows)

  cfg_reply-Grows :
      (v : Evt) (w : World) {w' : World}
      → w.cbacks ≡ true
      → hw_sco_i2spcm_cfg_cback c e v w ≡ some w'
      → Grows 1 w w'
  unfolding hw_sco_i2spcm_cfg_cback report_audio free_event
  cfg_reply-Grows v w on h =
      let (opcode, _, h₁) = bind_some (evt_opcode v) _ h in
      let (status, _, h₂) = bind_some (evt_status v) _ h₁ in
      ground (arith, after_reply-Grows opcode (free_event c e v w))

  codec_reply-Grows :
      (v : Evt) (codec : ℕ) (w : World) {w' : World}
      → w.cbacks ≡ true
      → hw_sco_i2spcm_config_from_command c e v codec w ≡ some w'
      → Grows 1 w w'
  unfolding hw_sco_i2spcm_config_from_command report_audio free_event
  codec_reply-Grows v codec w on h =
      let (status, _, h₁) = bind_some (evt_status v) _ h in
      elim (Bool-cases (status == 0)) [
        | inl good ↦ ground (arith, i2spcm-Grows codec (free_event c e v w) (rw good at h₁))
        | inr bad ↦ ground arith
      ]

  lpm_reply-Grows :
      (v : Evt) (w : World) {w' : World}
      → w.cbacks ≡ true
      → hw_lpm_ctrl_cback c e v w ≡ some w'
      → Grows 1 w w'
  unfolding hw_lpm_ctrl_cback
  lpm_reply-Grows v w on h = let (status, _, k) = bind_some (evt_status v) _ h in ground arith

  epilog_reply-Grows :
      (v : Evt) (w : World) {w' : World}
      → w.cbacks ≡ true
      → hw_epilog_cback c e v w ≡ some w'
      → Grows 1 w w'
  unfolding hw_epilog_cback
  epilog_reply-Grows v w on h =
      let (status, _, k) = bind_some (evt_status v) _ h in
      let (opcode, _, k') = bind_some (evt_opcode v) _ k in ground arith

  -- Each reply, to any command, leads to a command or an outcome.
  pub deliver-Grows :
      (k : Cback) (v : Evt) (w : World) {w' : World}
      → Ready w
      → w.cbacks ≡ true
      → deliver c e k v w ≡ some w'
      → Grows 1 w w'
  unfolding deliver hw_set_msbc_codec_cback hw_set_cvsd_codec_cback
  deliver-Grows Cback.hw_config v w ready on h =
      let k : Handled 0 v w _ = hw_config_cback-Handled c e 0 v w on (shut c e w ready) h in
      let a : Apart w _ = hw_config_cback-Apart c e v w (shut c e w ready) h in ground arith
  deliver-Grows Cback.lpm_ctrl v w ready on h = lpm_reply-Grows v w on h
  deliver-Grows Cback.sco_i2spcm_cfg v w ready on h = cfg_reply-Grows v w on h
  deliver-Grows Cback.set_msbc_codec v w ready on h = codec_reply-Grows v _ w on h
  deliver-Grows Cback.set_cvsd_codec v w ready on h = codec_reply-Grows v _ w on h
  deliver-Grows Cback.epilog v w ready on h = epilog_reply-Grows v w on h

module _ (c : Config) (e : Env) (up : Willing e) where
  open up use {given, accepts}

  start-Grows : (w : World) → w.cbacks ≡ true → Grows 1 w (hw_config_start c e w)
  unfolding hw_config_start
  start-Grows w on =
      let size : ℕ = e.bt_hc_hdr_size + hci_cmd_preamble_size in
      let got = given w.trace size in
      let willing = accepts (call_alloc e size w).0.trace hci_reset (bare_command hci_reset) in
      ground arith

  params_sent :
      (opcode : ℕ) (p : Packet) (back : Cback) (size : ℕ) (w : World)
      → w.cbacks ≡ true
      → sends (send_params c e opcode p back size w).0.trace ≡ sends w.trace + 1
  unfolding send_params
  params_sent opcode p back size w on =
      let n : ℕ = e.bt_hc_hdr_size + hci_cmd_preamble_size + size in
      let got = given w.trace n in
      let willing = accepts (call_alloc e n w).0.trace opcode p in ground arith

  codec_sent :
      (codec : ℕ) (w : World)
      → w.cbacks ≡ true
      → sends (hw_set_sco_codec c e codec w).0.trace ≡ sends w.trace + 1
  unfolding hw_set_sco_codec
  codec_sent codec w on = grind (arith, params_sent)

  unasked :
      (fuel : ℕ) (o : Op) (w : World) {r : Reply}
      → op c e fuel o w ≡ some r
      → request o ≡ 0
      → Grows 0 w r.world
  unasked fuel o w h nothing =
      let (t, _) = op-Accounted c e 0 fuel o w h in omega (arith, t.growing, t.telling)

  -- With a willing stack each request leads to a command or an outcome, but for the settings of
  -- SCO, whose outcome is not counted.
  pub op-Grows :
      (fuel : ℕ) (o : Op) (w : World) {r : Reply}
      → c.sco_cfg_included ≡ true
      → w.cbacks ≡ true
      → o ≢ sco_cfg
      → op c e fuel o w ≡ some r
      → Grows (request o) w r.world
  unfolding op hw_set_audio_state
  op-Grows fuel fw_cfg w included on other h = ground (arith, start-Grows w on)
  op-Grows fuel sco_cfg w included on other h = absurd (other refl)
  op-Grows fuel (lpm_set_mode mode) w included on other h =
      let one = (sleep_sent c e up mode w on).2.one in
      let (t, _) = op-Accounted c e 0 fuel (lpm_set_mode mode) w h in ground (arith, t.telling)
  op-Grows fuel (set_audio_state codec) w included on other h =
      let one = codec_sent codec w on in
      let (t, _) = op-Accounted c e 0 fuel (set_audio_state codec) w h in ground (arith, t.telling)
  op-Grows fuel epilog w included on other h =
      let one = (reset_sent c e up w on).0 in
      let (t, _) = op-Accounted c e 0 fuel epilog w h in
      elim (Bool-cases c.hw_end_with_hci_reset) [
        | inl resets ↦ ground (arith, t.telling)
        | inr quiet ↦ ground arith
      ]
  op-Grows fuel (power_ctrl x) w included on other h = unasked fuel (power_ctrl x) w h refl
  op-Grows fuel userial_open w included on other h = unasked fuel userial_open w h refl
  op-Grows fuel userial_close w included on other h = unasked fuel userial_close w h refl
  op-Grows fuel get_lpm_idle_timeout w included on other h =
      unasked fuel get_lpm_idle_timeout w h refl
  op-Grows fuel (lpm_wake_set_state x) w included on other h =
      unasked fuel (lpm_wake_set_state x) w h refl
