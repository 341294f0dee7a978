-- ===== src/Vendor/Failing.antt =====
-- A command that the controller refuses: its reply carries a status other than 0.
use myir_bluetooth.Common.{
  ℕ, ◌+◌, ◌<◌, true, false, Option, none, some, List, [], ◌∷◌, ◌≡◌, ◌≢◌, arith, refl,
}
use myir_bluetooth.Config.{Config}
use myir_bluetooth.Hardware.Handler.{hw_config_cback, finish, free_evt, abort}
use myir_bluetooth.Hardware.Hci.{evt_status, evt_opcode}
use myir_bluetooth.Hardware.Lpm.{hw_lpm_ctrl_cback, hw_epilog_cback}
use myir_bluetooth.Hardware.Sco.{
  hw_sco_i2spcm_cfg_cback, hw_set_msbc_codec_cback, hw_set_cvsd_codec_cback, report_audio,
  free_event, hw_sco_i2spcm_config_from_command,
}
use myir_bluetooth.Hardware.Setup.{close_fw}
use myir_bluetooth.Ledger.{sends, once_at, takes, gives}
use myir_bluetooth.Link.Peers.{deliver}
use myir_bluetooth.Platform.{
  Env, Evt, Cback, Trace, OpResult, success, fail, fwcfg_cb, lpm_cb, audio_state_cb, epilog_cb,
  dealloc,
}
use myir_bluetooth.Vendor.Accounts.{outcomes}
use myir_bluetooth.Vendor.Sessions.{Step, answered, Session, answer, answers, Sound, Session-Sound}
use myir_bluetooth.World.{World, idle, log}

-- The newest outcome that the stack was told, of any request.
abbrev pub last_outcome : Trace → Option OpResult
last_outcome [] = none
last_outcome (fwcfg_cb r ∷ t) = some r
last_outcome (lpm_cb r ∷ t) = some r
last_outcome (audio_state_cb r ∷ t) = some r
last_outcome (epilog_cb r ∷ t) = some r
last_outcome (_ ∷ t) = last_outcome t

-- What the stack is told of a refused command: the epilog counts as done.
abbrev pub verdict : Cback → OpResult
verdict Cback.epilog = success
verdict _ = fail

-- The handler `k` was given the reply `v` in `w`, and left `w'`: one outcome was told and no
-- command sent; no buffer was received, and only that of the reply given back; and the
-- configuration, if it was its command, is idle and holds no file.
pub record Failed (a : ℕ) (k : Cback) (v : Evt) (w w' : World) : Type 0 where
  pub told : outcomes w'.trace ≡ outcomes w.trace + 1
  pub verdict_told : last_outcome w'.trace ≡ some (verdict k)
  pub silent : sends w'.trace ≡ sends w.trace
  pub given : gives a w'.trace ≡ gives a w.trace + once_at v.addr a
  pub taken : takes a w'.trace ≡ takes a w.trace

abbrev pub Stopped : Cback → World → Type 0
Stopped Cback.hw_config w' = (w'.hw.state ≡ idle) × (w'.hw.fw_fd ≡ none)
Stopped _ w' = Unit {0}

module _ (c : Config) (e : Env) (a : ℕ) (v : Evt) (status opcode : ℕ)
    (read : evt_status v ≡ some status) (named : evt_opcode v ≡ some opcode)
    (refused : status ≢ 0) where
  config_fails :
      (w : World)
      → w.cbacks ≡ true
      → (w' : World) × (hw_config_cback c e v w ≡ some w')
        × Failed a Cback.hw_config v w w'
        × Stopped Cback.hw_config w'
  unfolding hw_config_cback finish free_evt abort close_fw
  config_fails w on = (finish c e v none (w, false), ground arith, ground arith, ground arith)

  audio_fails :
      (k : Cback) (w : World)
      → w.cbacks ≡ true
      → verdict k ≡ fail
      → Failed a k v w (report_audio c e fail (free_event c e v w))
  unfolding report_audio free_event
  audio_fails k w on bad = ground arith

  deliver_fails :
      (k : Cback) (w : World)
      → w.cbacks ≡ true
      → (w' : World) × (deliver c e k v w ≡ some w') × Failed a k v w w' × Stopped k w'
  unfolding deliver hw_lpm_ctrl_cback hw_epilog_cback hw_sco_i2spcm_cfg_cback
      hw_set_msbc_codec_cback hw_set_cvsd_codec_cback hw_sco_i2spcm_config_from_command
  deliver_fails Cback.hw_config w on = config_fails w on
  deliver_fails Cback.lpm_ctrl w on =
      (log (dealloc v.addr) (log (lpm_cb fail) w), ground arith, ground arith, tt)
  deliver_fails Cback.sco_i2spcm_cfg w on =
      (report_audio c e fail (free_event c e v w), ground arith, audio_fails _ w on refl, tt)
  deliver_fails Cback.set_msbc_codec w on =
      (report_audio c e fail (free_event c e v w), ground arith, audio_fails _ w on refl, tt)
  deliver_fails Cback.set_cvsd_codec w on =
      (report_audio c e fail (free_event c e v w), ground arith, audio_fails _ w on refl, tt)
  deliver_fails Cback.epilog w on =
      (log (epilog_cb success) (log (dealloc v.addr) w), ground arith, ground arith, tt)

  -- In a session between `init` and `cleanup` with a command that is not answered yet, any handler
  -- and any reply that can be read and carries a status other than 0: given that reply, the handler
  -- returns; the
  -- stack is told exactly one outcome, a failure unless the handler is the epilog's; no command is
  -- sent; no buffer is received, and just the reply's is given back; a configuration becomes idle
  -- and holds no file; and the session goes on.
  pub deliver-Failed :
      (k : Cback) (h : List Step) (w : World)
      → Session c e true h w
      → answers h < sends w.trace
      → (w' : World) × (deliver c e k v w ≡ some w')
        × Failed a k v w w'
        × Stopped k w'
        × Session c e true (answered k ∷ h) w'
  deliver-Failed k h w session more =
      let s : Sound c true h w = Session-Sound c e true h w session in
      let (w', ran, failed, stopped) = deliver_fails k w s.callbacks in
      (w', ran, failed, stopped, answer h w w' k v session more ran)
