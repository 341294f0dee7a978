-- ===== src/Hardware/Audio.antt =====
-- What the audio configuration sends and reports.
use myir_bluetooth.Common.{
  bind_some, ℕ, ◌+◌, true, some, ◌≡◌, ◌⊎◌, inl, inr, arith, ◌==◌, Bool-cases,
}
use myir_bluetooth.Config.{Config}
use myir_bluetooth.Hardware.Hci.{evt_status, evt_opcode}
use myir_bluetooth.Hardware.Sco.{
  send_params, report_audio, hw_sco_i2spcm_config, free_event, hw_sco_i2spcm_config_from_command,
  hw_set_msbc_codec_cback, hw_set_cvsd_codec_cback, send_next, after_reply, hw_sco_i2spcm_cfg_cback,
  hw_set_sco_codec,
}
use myir_bluetooth.Ledger.{once_at, takes, gives, sends, audio_reports}
use myir_bluetooth.Platform.{Env, Evt, Packet, Cback}
use myir_bluetooth.Upio.Timers.{bit}
use myir_bluetooth.World.{World}

-- The stack was sent one command or told one outcome, and besides `extra`, the buffer at `a` was given
-- away, to the stack or back, as often as it was received.
pub record Answered (a extra : ℕ) (w w' : World) : Type 0 where
  pub outcome : sends w'.trace + audio_reports w'.trace ≡ sends w.trace + audio_reports w.trace + 1
  pub owned : gives a w'.trace + takes a w.trace ≡ gives a w.trace + takes a w'.trace + extra

module _ (c : Config) (e : Env) (a : ℕ) where
  pub i2spcm_config-Answered :
      (codec : ℕ) (w : World) {w' : World}
      → hw_sco_i2spcm_config c e codec w ≡ some w'
      → Answered a 0 w w'
  unfolding hw_sco_i2spcm_config
  i2spcm_config-Answered codec w h = ground arith

  send_params_lem :
      (opcode : ℕ) (p : Packet) (k : Cback) (size : ℕ) (w : World)
      → let r = send_params c e opcode p k size w in
        (sends r.0.trace ≡ sends w.trace + bit r.1)
        × (audio_reports r.0.trace ≡ audio_reports w.trace)
        × (gives a r.0.trace + takes a w.trace ≡ gives a w.trace + takes a r.0.trace)
        × (r.0.cbacks ≡ w.cbacks)
        × ((w.cbacks ≡ true) ⊎ (r.0 ≡ w))
  unfolding send_params
  send_params_lem opcode p k size w = ground arith

  -- Asking for a codec sends one command or none, and reports nothing; it returns 0 exactly if the
  -- command was accepted, and -1 otherwise. The buffer at each
  -- address goes to the stack or back as often as it is received, and
  -- without callbacks nothing is done.
  pub hw_set_sco_codec_lem :
      (codec : ℕ) (w : World)
      → let r = hw_set_sco_codec c e codec w in
        (sends r.0.trace ≡ sends w.trace + bit r.1)
        × (audio_reports r.0.trace ≡ audio_reports w.trace)
        × (gives a r.0.trace + takes a w.trace ≡ gives a w.trace + takes a r.0.trace)
        × ((w.cbacks ≡ true) ⊎ (r.0 ≡ w))
  unfolding hw_set_sco_codec
  hw_set_sco_codec_lem codec w = elim (Bool-cases (codec == e.sco_codec_msbc)) [
    | inl wide ↦ rw wide (grind (arith, send_params_lem))
    | inr narrow ↦ rw narrow (grind (arith, send_params_lem))
  ]

  send_next-Answered :
      (opcode : ℕ) (p : Packet) (size : ℕ) (w : World)
      → w.cbacks ≡ true
      → Answered a 0 w (send_next c e opcode p size w)
  unfolding send_next report_audio
  send_next-Answered opcode p size w on =
      ground (arith, send_params_lem opcode p Cback.sco_i2spcm_cfg size w)

  after_reply-Answered :
      (opcode : ℕ) (w : World) → w.cbacks ≡ true → Answered a 0 w (after_reply c e opcode w)
  unfolding after_reply report_audio
  after_reply-Answered opcode w on = grind (arith, send_next-Answered)

  from_command-Answered :
      (v : Evt) (codec : ℕ) (w : World) {w' : World}
      → w.cbacks ≡ true
      → hw_sco_i2spcm_config_from_command c e v codec w ≡ some w'
      → Answered a (once_at v.addr a) w w'
  unfolding hw_sco_i2spcm_config_from_command report_audio free_event
  from_command-Answered v codec w on h =
      let (status, _, h₁) = bind_some (evt_status v) _ h in
      elim (Bool-cases (status == 0)) [
        | inl good ↦
            ground (arith, i2spcm_config-Answered codec (free_event c e v w) (rw good at h₁))
        | inr bad ↦ ground arith
      ]

  -- While the callbacks are set, each reply in the audio configuration, to the codec command or to
  -- one of the three settings, leads to exactly one command or exactly one reported outcome; and the
  -- buffer at each address is given away, back to the allocator or to the stack with a command that
  -- it accepts, as often as it is received, and once more if it is the event's own.
  pub audio_reply-Answered :
      (v : Evt) (w : World) {w' : World}
      → w.cbacks ≡ true
      → (hw_sco_i2spcm_cfg_cback c e v w ≡ some w')
        ⊎ ((hw_set_msbc_codec_cback c e v w ≡ some w')
            ⊎ (hw_set_cvsd_codec_cback c e v w ≡ some w'))
      → Answered a (once_at v.addr a) w w'
  unfolding hw_sco_i2spcm_cfg_cback hw_set_msbc_codec_cback hw_set_cvsd_codec_cback report_audio
      free_event
  audio_reply-Answered v w on (inl h) =
      let (opcode, _, h₁) = bind_some (evt_opcode v) _ h in
      let (status, _, h₂) = bind_some (evt_status v) _ h₁ in
      ground (arith, after_reply-Answered opcode (free_event c e v w))
  audio_reply-Answered v w on (inr (inl h)) = from_command-Answered v _ w on h
  audio_reply-Answered v w on (inr (inr h)) = from_command-Answered v _ w on h
