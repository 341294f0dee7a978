-- ===== src/Vendor/Replies.antt =====
-- The same for the replies to commands, and what stays true of the configuration's control block.
use myir_bluetooth.Common.{
  ℕ, Bool, false, none, some, ◌≡◌, inl, inr, arith, Bool-cases, bind_some, ◌==◌,
}
use myir_bluetooth.Config.{Config}
use myir_bluetooth.Hardware.Handler.{finish, free_evt, abort, dispatch, hw_config_cback}
use myir_bluetooth.Hardware.Setup.{close_fw}
use myir_bluetooth.Hardware.Hci.{evt_status, evt_opcode}
use myir_bluetooth.Hardware.Lpm.{hw_lpm_ctrl_cback, hw_epilog_cback}
use myir_bluetooth.Hardware.Outcome.{
  refused, no_buffer, switched, after_alloc, hw_config_cback-Ended, Handled, Apart,
  hw_config_cback-Handled, hw_config_cback-Apart,
}
use myir_bluetooth.Hardware.Sco.{
  send_params, report_audio, free_event, hw_sco_i2spcm_config_from_command, hw_set_msbc_codec_cback,
  hw_set_cvsd_codec_cback, send_next, after_reply, hw_sco_i2spcm_cfg_cback,
}
use myir_bluetooth.Hardware.Progress.{hw_config_cback-Stepped}
use myir_bluetooth.Hardware.Machine.{IsReady}
use myir_bluetooth.Platform.{Env, Evt, Packet, Cback}
use myir_bluetooth.Ledger.{once_at}
use myir_bluetooth.Link.Peers.{deliver}
use myir_bluetooth.Upio.Signal.{proc_btwrite_timeout}
use myir_bluetooth.Vendor.Accounts.{timeout-Beside, Accounted, Beside}
use myir_bluetooth.Vendor.Interface.{Op, op, Reply}
use myir_bluetooth.World.{World, HwState, idle, read_local_name}
use myir_bluetooth.Vendor.Requests.{i2spcm-Beside, op-Accounted}

module _ (c : Config) (e : Env) (a : ℕ) where
  -- A reply in the audio configuration, and one to a low power command or the epilog's reset.
  send_next-Beside :
      (opcode : ℕ) (p : Packet) (size : ℕ) (w : World)
      → Beside a 0 1 0 w (send_next c e opcode p size w)
  unfolding send_next report_audio send_params
  send_next-Beside opcode p size w = ground arith

  after_reply-Beside : (opcode : ℕ) (w : World) → Beside a 0 1 0 w (after_reply c e opcode w)
  unfolding after_reply report_audio
  after_reply-Beside opcode w = grind (arith, send_next-Beside)

  cfg_reply-Beside :
      (v : Evt) (w : World) {w' : World}
      → hw_sco_i2spcm_cfg_cback c e v w ≡ some w'
      → Beside a (once_at v.addr a) 0 1 w w'
  unfolding hw_sco_i2spcm_cfg_cback report_audio free_event
  cfg_reply-Beside v w h =
      let (opcode, _, h₁) = bind_some (evt_opcode v) _ h in
      let (status, _, h₂) = bind_some (evt_status v) _ h₁ in
      ground (arith, after_reply-Beside opcode (free_event c e v w))

  codec_reply-Beside :
      (v : Evt) (codec : ℕ) (w : World) {w' : World}
      → hw_sco_i2spcm_config_from_command c e v codec w ≡ some w'
      → Beside a (once_at v.addr a) 0 1 w w'
  unfolding hw_sco_i2spcm_config_from_command report_audio free_event
  codec_reply-Beside v codec w h =
      let (status, _, h₁) = bind_some (evt_status v) _ h in
      elim (Bool-cases (status == 0)) [
        | inl good ↦ ground (arith, i2spcm-Beside c e a codec (free_event c e v w) (rw good at h₁))
        | inr bad ↦ ground arith
      ]

  lpm_reply-Beside :
      (v : Evt) (w : World) {w' : World}
      → hw_lpm_ctrl_cback c e v w ≡ some w'
      → Beside a (once_at v.addr a) 0 1 w w'
  unfolding hw_lpm_ctrl_cback
  lpm_reply-Beside v w h = let (status, _, k) = bind_some (evt_status v) _ h in ground arith

  epilog_reply-Beside :
      (v : Evt) (w : World) {w' : World}
      → hw_epilog_cback c e v w ≡ some w'
      → Beside a (once_at v.addr a) 0 1 w w'
  unfolding hw_epilog_cback
  epilog_reply-Beside v w h =
      let (status, _, k) = bind_some (evt_status v) _ h in
      let (opcode, _, k') = bind_some (evt_opcode v) _ k in ground arith

-- Before the first request for a configuration, and after the end of one, the state is idle; in
-- between a patch file is held only where it may be.
pub data Ready (w : World) : Type 0 where
  at_rest : w.hw.state ≡ idle → Ready w
  at_work : IsReady w → Ready w

module _ (c : Config) (e : Env) where
  idle_dispatch :
      (s : HwState) (v : Evt) (opcode addr : ℕ) (u : World) {r : World × Bool}
      → s ≡ idle
      → dispatch c e s v opcode addr u ≡ some r
      → r ≡ (u, false)
  unfolding dispatch
  idle_dispatch s v opcode addr u {r} rest h =
      let stays : dispatch c e idle v opcode addr u ≡ some r = rw rest at h in ground arith

  idle_reply :
      (v : Evt) (w : World) {w' : World}
      → w.hw.state ≡ idle
      → hw_config_cback c e v w ≡ some w'
      → w'.hw.state ≡ idle
  unfolding finish free_evt abort close_fw
  idle_reply v w {w'} rest h = elim (hw_config_cback-Ended c e v w h) [
    | refused end ↦ ground arith
    | no_buffer on full end ↦ ground arith
    | switched addr opcode r on got case end ↦
        let stays = idle_dispatch w.hw.state v opcode addr (after_alloc c e w).0 rest case in
        ground arith
  ]

  pub shut : (w : World) → Ready w → w.hw.state ≡ read_local_name → w.hw.fw_fd ≡ none
  shut w (at_rest rest) at = absurd (ground arith)
  shut w (at_work ready) at = ready.shut (ground arith)

  config_reply-Accounted :
      (a : ℕ) (v : Evt) (w : World) {w' : World}
      → Ready w
      → hw_config_cback c e v w ≡ some w'
      → Accounted a (once_at v.addr a) 0 1 w w'
  unfolding finish free_evt abort close_fw
  config_reply-Accounted a v w h eq = elim (Bool-cases w.cbacks) [
    | inl on ↦
        let k : Handled a v w _ = hw_config_cback-Handled c e a v w on (shut w h) eq in
        let a : Apart w _ = hw_config_cback-Apart c e v w (shut w h) eq in ground arith
    | inr off ↦ elim (hw_config_cback-Ended c e v w eq) [
      | refused end ↦ rw end (ground arith)
      | no_buffer on full end ↦ absurd (ground arith)
      | switched addr opcode r on got case end ↦ absurd (ground arith)
    ]
  ]

  config_reply-Ready :
      (v : Evt) (w : World) {w' : World} → Ready w → hw_config_cback c e v w ≡ some w' → Ready w'
  config_reply-Ready v w (at_rest rest) eq = at_rest (idle_reply v w rest eq)
  config_reply-Ready v w (at_work ready) eq =
      let s = hw_config_cback-Stepped c e v w ready eq in at_work s.ready

  pub keeps-Ready : (w w' : World) → w'.hw ≡ w.hw → Ready w → Ready w'
  keeps-Ready w w' same (at_rest rest) = at_rest (ground arith)
  keeps-Ready w w' same (at_work ready) = at_work (ground arith)

  aside :
      (a : ℕ) (v : Evt) (w w' : World)
      → Beside a (once_at v.addr a) 0 1 w w'
      → Ready w
      → Accounted a (once_at v.addr a) 0 1 w w' × Ready w'
  aside a v w w' (counts, same) h = (counts, keeps-Ready w w' same h)

  -- Any reply, in the handler that was given with its command.
  pub deliver-Accounted :
      (a : ℕ) (k : Cback) (v : Evt) (w : World) {w' : World}
      → Ready w
      → deliver c e k v w ≡ some w'
      → Accounted a (once_at v.addr a) 0 1 w w' × Ready w'
  unfolding deliver hw_set_msbc_codec_cback hw_set_cvsd_codec_cback
  deliver-Accounted a Cback.hw_config v w h eq =
      (config_reply-Accounted a v w h eq, config_reply-Ready v w h eq)
  deliver-Accounted a Cback.lpm_ctrl v w h eq = aside a v w _ (lpm_reply-Beside c e a v w eq) h
  deliver-Accounted a Cback.sco_i2spcm_cfg v w h eq =
      aside a v w _ (cfg_reply-Beside c e a v w eq) h
  deliver-Accounted a Cback.set_msbc_codec v w h eq =
      aside a v w _ (codec_reply-Beside c e a v _ w eq) h
  deliver-Accounted a Cback.set_cvsd_codec v w h eq =
      aside a v w _ (codec_reply-Beside c e a v _ w eq) h
  deliver-Accounted a Cback.epilog v w h eq = aside a v w _ (epilog_reply-Beside c e a v w eq) h

  pub op-Ready :
      (fuel : ℕ) (o : Op) (w : World) {r : Reply}
      → op c e fuel o w ≡ some r
      → Ready w
      → Ready r.world
  op-Ready fuel o w eq h = elim (op-Accounted c e 0 fuel o w eq).1 [
    | inl same ↦ keeps-Ready w _ same h
    | inr ready ↦ at_work ready
  ]

  pub timeout-Ready : (w : World) → Ready w → Ready (proc_btwrite_timeout c e w)
  timeout-Ready w h = keeps-Ready w _ (timeout-Beside c e 0 w).1 h
