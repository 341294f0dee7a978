-- ===== src/Link/Codec.antt =====
-- The request for a codec, with the replies to all its commands.
use myir_bluetooth.Common.{
  ◌+◌, ℕ, suc, Bool, true, false, some, List, [], ◌∷◌, ◌++◌, Bytes, ◌≡◌, refl, arith, length,
  if◌then◌else◌, ◌==◌, Bool-cases, inl, inr, ap, ◌∙◌,
}
use mathlib.Core.List.{reverse, append_assoc, reverse-append}
use myir_bluetooth.Config.{Config}
use myir_bluetooth.Hardware.Hci.{hci_vsc_enable_wbs, hci_vsc_write_i2spcm_interface_param}
use myir_bluetooth.Hardware.Sco.{
  select_codec, hw_set_sco_codec, hw_set_msbc_codec_cback, hw_set_cvsd_codec_cback,
}
use myir_bluetooth.Ledger.{audio_reports, sends}
use myir_bluetooth.Link.Audio.{
  wbs_command, i2spcm_command, sco_pcm_command, pcm_format_command, Sets, sends-Sets, Settled,
  send_params-Sets, codec_turn, i2s_turns, pcm_turns,
}
use myir_bluetooth.Link.Peers.{
  sends-commands, Exchanged, Exchanged-next, Willing, Controller, commands, deliver, turn,
}
use myir_bluetooth.Platform.{Env, Cback}
use myir_bluetooth.World.{World, Sco}

-- The codec for which the settings are chosen: mSBC, or CVSD for any other.
abbrev pub effective : Env → ℕ → ℕ
effective e codec = if codec == e.sco_codec_msbc then e.sco_codec_msbc else e.sco_codec_cvsd

-- What is sent besides on a PCM bus.
abbrev pub pcm_commands : Config → Sco → (bus_i2s : Bool) → List Bytes
pcm_commands c s true = []
pcm_commands c s false = (sco_pcm_command s).bytes ∷ (pcm_format_command c).bytes ∷ []

-- The commands of an audio configuration from the settings `s`, in their order.
abbrev pub audio_configuration : Config → Env → ℕ → Sco → List Bytes
audio_configuration c e codec s =
    let s' : Sco = select_codec c e (effective e codec) s in
    (wbs_command e codec).bytes ∷ (i2spcm_command s').bytes ∷ pcm_commands c s' s.bus_i2s

reverse-two :
    (x y : Bytes) (t rest : List Bytes) → reverse (x ∷ y ∷ t) ++ rest ≡ reverse t ++ y ∷ x ∷ rest
reverse-two x y t rest =
    ap (λ s. s ++ rest) (reverse-append (x ∷ y ∷ []) t) ∙ append_assoc (reverse t) (y ∷ x ∷ []) rest

module _ (c : Config) (e : Env) (up : Willing e) (k : Controller) where
  same_bus : (codec : ℕ) (s : Sco) → (select_codec c e codec s).bus_i2s ≡ s.bus_i2s
  unfolding select_codec
  same_bus codec s = ground arith

  abbrev handler : ℕ → Cback
  handler codec = if codec == e.sco_codec_msbc then Cback.set_msbc_codec else Cback.set_cvsd_codec

  request-Sets :
      (codec : ℕ) (w : World)
      → w.cbacks ≡ true
      → let r = hw_set_sco_codec c e codec w in
        (r.1 ≡ true)
        × Sets hci_vsc_enable_wbs
            (handler codec)
            (audio_reports w.trace)
            w.sco
            ((wbs_command e codec).bytes ∷ commands w.trace)
            r.0
  unfolding hw_set_sco_codec
  request-Sets codec w on = elim (Bool-cases (codec == e.sco_codec_msbc)) [
    | inl wide ↦ rw wide (send_params-Sets c e up k _ _ _ _ w on refl refl refl)
    | inr narrow ↦ rw narrow (send_params-Sets c e up k _ _ _ _ w on refl refl refl)
  ]

  -- The turn of the codec's command, for both codecs.
  first_turn :
      {reports : ℕ} {s : Sco} {sent : List Bytes} (codec : ℕ) (w : World)
      → Sets hci_vsc_enable_wbs (handler codec) reports s sent w
      → let s' = select_codec c e (effective e codec) s in
        (w' : World) × (turn c e k w ≡ some w')
        × Sets hci_vsc_write_i2spcm_interface_param Cback.sco_i2spcm_cfg reports s'
            ((i2spcm_command s').bytes ∷ sent)
            w'
  unfolding deliver hw_set_msbc_codec_cback hw_set_cvsd_codec_cback
  first_turn {reports = reports} {s = s} {sent = sent} codec w h =
      elim (Bool-cases (codec == e.sco_codec_msbc)) [
        | inl wide ↦
            let h' : Sets hci_vsc_enable_wbs Cback.set_msbc_codec reports s sent w = rw wide at h in
            rw wide (codec_turn c e up k e.sco_codec_msbc _ _ w h' (λ v. refl))
        | inr narrow ↦
            let h' : Sets hci_vsc_enable_wbs Cback.set_cvsd_codec reports s sent w =
              rw narrow at h in
            rw narrow (codec_turn c e up k e.sco_codec_cvsd _ _ w h' (λ v. refl))
      ]

  last_turns :
      {reports : ℕ} {s : Sco} {sent : List Bytes} (bus_i2s : Bool) (w : World)
      → s.bus_i2s ≡ bus_i2s
      → Sets hci_vsc_write_i2spcm_interface_param Cback.sco_i2spcm_cfg reports s sent w
      → (w' : World) × Exchanged c e k (length (pcm_commands c s bus_i2s)) w w'
        × Settled reports s (reverse (pcm_commands c s bus_i2s) ++ sent) w'
  last_turns true w bus h = i2s_turns c e up k w bus h
  last_turns false w bus h = pcm_turns c e up k w bus h

  -- With callbacks and a willing stack, a request for a codec is accepted; with one reply for each of
  -- its commands it sends exactly those of `audio_configuration`, in that order, leaves the codec's
  -- settings, and tells the stack once that it succeeded.
  pub audio_configuration_lem :
      (codec : ℕ) (w : World)
      → w.cbacks ≡ true
      → let r = hw_set_sco_codec c e codec w in
        let sent = audio_configuration c e codec w.sco in
        (r.1 ≡ true)
        × (sends r.0.trace ≡ sends w.trace + 1)
        × (w' : World) × Exchanged c e k
            (suc
              (length (pcm_commands c (select_codec c e (effective e codec) w.sco) w.sco.bus_i2s)))
            r.0
            w'
        × Settled
            (audio_reports w.trace)
            (select_codec c e (effective e codec) w.sco)
            (reverse sent ++ commands w.trace)
            w'
  audio_configuration_lem codec w on =
      let (taken, h) = request-Sets codec w on in
      let (w₁, ran, h₁) = first_turn codec _ h in
      let s' : Sco = select_codec c e (effective e codec) w.sco in
      let (w', ran', done) = last_turns w.sco.bus_i2s w₁ (same_bus (effective e codec) w.sco) h₁ in
      (
        taken,
        omega (
          arith,
          sends-commands w.trace,
          sends-commands (hw_set_sco_codec c e codec w).0.trace,
          ap length h.logged,
        ),
        w',
        Exchanged-next c e k _ (hw_set_sco_codec c e codec w).0 w₁ w' ran
            (sends-Sets _ ((i2spcm_command s').bytes ∷ []) h h₁) ran',
        rw (reverse-two _ _ (pcm_commands c s' w.sco.bus_i2s) (commands w.trace)) done,
      )
