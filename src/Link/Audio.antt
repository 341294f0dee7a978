-- ===== src/Link/Audio.antt =====
-- A whole audio configuration: from the request for a codec to the outcome that the stack is told.
use myir_bluetooth.Common.{
  length, ap, ◌++◌, length-append, ℕ, ◌+◌, ◌<◌, ◌^◌, Bool, true, false, Option, none, some, List,
  [], ◌∷◌, Bytes, ◌≡◌, refl, arith, if◌then◌else◌, ◌==◌,
}
use myir_bluetooth.Config.{Config, sco_bytes, pcm_bytes, i2s_bytes}
use myir_bluetooth.Hardware.Hci.{
  hci_cmd_preamble_size, hci_vsc_enable_wbs, hci_vsc_write_i2spcm_interface_param,
  hci_vsc_write_sco_pcm_int_param, hci_vsc_write_pcm_data_format_param, packet, uint16_to_stream,
}
use myir_bluetooth.Hardware.Sco.{
  sco_i2spcm_param_size, param_command, select_codec, set_sco, send_params, report_audio,
  hw_sco_i2spcm_config, free_event, hw_sco_i2spcm_config_from_command, send_next, after_reply,
  hw_sco_i2spcm_cfg_cback,
}
use myir_bluetooth.Ledger.{audio_reports, sends}
use myir_bluetooth.Link.Peers.{
  Exchanged, sends-commands, Willing, Controller, commands, last_sent, deliver, turn, turns,
}
use myir_bluetooth.Platform.{Env, Evt, Cback, Packet, Trace, OpResult, alloc, xmit, audio_state_cb}
use myir_bluetooth.World.{World, Sco, log}

abbrev pub wbs_command : Env → ℕ → Packet
wbs_command e codec =
    if codec == e.sco_codec_msbc
    then packet 6 (uint16_to_stream hci_vsc_enable_wbs (3 ∷ 1 ∷ uint16_to_stream codec []))
    else packet 4 (uint16_to_stream hci_vsc_enable_wbs (1 ∷ 0 ∷ []))

abbrev pub i2spcm_command : Sco → Packet
i2spcm_command s = param_command hci_vsc_write_i2spcm_interface_param 4 (i2s_bytes s.i2spcm_param)

abbrev pub sco_pcm_command : Sco → Packet
sco_pcm_command s = param_command hci_vsc_write_sco_pcm_int_param 5 (sco_bytes s.sco_param)

abbrev pub pcm_format_command : Config → Packet
pcm_format_command c =
    param_command hci_vsc_write_pcm_data_format_param 5 (pcm_bytes c.pcm_data_fmt)

-- The state waits for the reply to `opcode` in `back`; `reports` outcomes were told, the settings
-- are `s`, and `sent` was accepted, newest first.
pub record Sets (opcode : ℕ) (back : Cback) (reports : ℕ) (s : Sco) (sent : List Bytes) (w : World)
    : Type 0 where
  pub callbacks : w.cbacks ≡ true
  pub last : last_sent w.trace ≡ some (opcode, back)
  pub untold : audio_reports w.trace ≡ reports
  pub settings : w.sco ≡ s
  pub logged : commands w.trace ≡ sent

-- The newest outcome of the audio configuration that the stack was told.
abbrev pub last_audio : Trace → Option OpResult
last_audio [] = none
last_audio (audio_state_cb r ∷ t) = some r
last_audio (_ ∷ t) = last_audio t

-- What a finished audio configuration leaves.
pub record Settled (reports : ℕ) (s : Sco) (sent : List Bytes) (w : World) : Type 0 where
  pub told : audio_reports w.trace ≡ reports + 1
  pub good : last_audio w.trace ≡ some OpResult.success
  pub settings : w.sco ≡ s
  pub logged : commands w.trace ≡ sent

pub sends-Sets :
    {o o' m n : ℕ} {b b' : Cback} {s t : Sco} {w w' : World} (xs ys : List Bytes)
    → Sets o b m s xs w
    → Sets o' b' n t (ys ++ xs) w'
    → sends w'.trace ≡ sends w.trace + length ys
sends-Sets {w = w} {w' = w'} xs ys h k = omega (
  arith,
  sends-commands w.trace,
  sends-commands w'.trace,
  ap length h.logged,
  ap length k.logged,
  length-append ys xs,
)

module _ (c : Config) (e : Env) (up : Willing e) (k : Controller) where
  open up use {given, accepts}
  open k use {reply, success, echo}

  -- `send_params` with a willing stack.
  pub send_params-Sets :
      {reports : ℕ} {s : Sco} {sent : List Bytes} (opcode : ℕ) (p : Packet) (back : Cback)
      (size : ℕ) (w : World)
      → w.cbacks ≡ true
      → audio_reports w.trace ≡ reports
      → w.sco ≡ s
      → commands w.trace ≡ sent
      → let r = send_params c e opcode p back size w in
        (r.1 ≡ true) × Sets opcode back reports s (p.bytes ∷ sent) r.0
  unfolding send_params
  send_params-Sets opcode p back size w on told set sent =
      let n : ℕ = e.bt_hc_hdr_size + hci_cmd_preamble_size + size in
      let taken : Trace = alloc n (e.alloc_answer w.trace n) ∷ w.trace in
      ground (arith, given w.trace n, accepts taken opcode p)

  -- The reply to the codec's command.
  pub codec_turn :
      {reports : ℕ} {s : Sco} {sent : List Bytes} (codec opcode : ℕ) (back : Cback) (w : World)
      → Sets opcode back reports s sent w
      → ((v : Evt) → deliver c e back v w ≡ hw_sco_i2spcm_config_from_command c e v codec w)
      → let s' = select_codec c e codec s in
        (w' : World) × (turn c e k w ≡ some w')
        × Sets hci_vsc_write_i2spcm_interface_param Cback.sco_i2spcm_cfg reports s'
            ((i2spcm_command s').bytes ∷ sent)
            w'
  unfolding turn hw_sco_i2spcm_config_from_command hw_sco_i2spcm_config free_event
  codec_turn codec opcode back w h handled =
      let v : Evt = reply opcode in
      let n : ℕ = e.bt_hc_hdr_size + hci_cmd_preamble_size + sco_i2spcm_param_size in
      let u : World = free_event c e v w in
      let s' : Sco = select_codec c e codec u.sco in
      let taken : World = set_sco s' (log (alloc n (e.alloc_answer u.trace n)) u) in
      let p : Packet = i2spcm_command s' in
      let addr : ℕ = up.buffer u.trace n in
      let good = success opcode in
      (
        log
            (xmit hci_vsc_write_i2spcm_interface_param addr p Cback.sco_i2spcm_cfg
              (e.xmit_answer taken.trace hci_vsc_write_i2spcm_interface_param p))
            taken,
        ground (
          arith,
          handled v,
          given u.trace n,
          accepts taken.trace hci_vsc_write_i2spcm_interface_param p,
        ),
        ground (arith, accepts taken.trace hci_vsc_write_i2spcm_interface_param p),
      )

  -- A reply that is answered with one more command.
  next_turn :
      {reports : ℕ} {s : Sco} {sent : List Bytes} (opcode opcode' size : ℕ) (p : Packet) (w : World)
      → opcode < 2 ^ 16
      → Sets opcode Cback.sco_i2spcm_cfg reports s sent w
      → ((u : World) → u.sco ≡ s → after_reply c e opcode u ≡ send_next c e opcode' p size u)
      → (w' : World) × (turn c e k w ≡ some w')
        × Sets opcode' Cback.sco_i2spcm_cfg reports s (p.bytes ∷ sent) w'
  unfolding turn deliver hw_sco_i2spcm_cfg_cback send_next report_audio free_event
  next_turn {reports = reports} {s = s} {sent = sent} opcode opcode' size p w small h next =
      let u : World = free_event c e (reply opcode) w in
      let r : World × Bool = send_params c e opcode' p Cback.sco_i2spcm_cfg size u in
      let (yes_sent, done) =
        send_params-Sets {reports = reports} {s = s} {sent = sent} opcode' p Cback.sco_i2spcm_cfg
          size u (ground arith) (ground arith) (ground arith) (ground arith) in
      let good = success opcode in
      let same = echo opcode small in let case = next u (ground arith) in (r.0, ground arith, done)

  end_turn :
      {reports : ℕ} {s : Sco} {sent : List Bytes} (opcode : ℕ) (w : World)
      → opcode < 2 ^ 16
      → Sets opcode Cback.sco_i2spcm_cfg reports s sent w
      → ((u : World) → u.sco ≡ s → after_reply c e opcode u ≡ report_audio c e OpResult.success u)
      → (w' : World) × (turn c e k w ≡ some w') × Settled reports s sent w'
  unfolding turn deliver hw_sco_i2spcm_cfg_cback report_audio free_event
  end_turn opcode w small h next =
      let u : World = free_event c e (reply opcode) w in
      let good = success opcode in
      let same = echo opcode small in
      let case = next u (ground arith) in
      (report_audio c e OpResult.success u, ground arith, ground arith)

  -- From the codec's command on, with an I2S bus and with a PCM bus.
  pub i2s_turns :
      {reports : ℕ} {s : Sco} {sent : List Bytes} (w : World)
      → s.bus_i2s ≡ true
      → Sets hci_vsc_write_i2spcm_interface_param Cback.sco_i2spcm_cfg reports s sent w
      → (w' : World) × Exchanged c e k 0 w w' × Settled reports s sent w'
  unfolding turns after_reply
  i2s_turns w i2s h =
      let (w', ran, done) =
        end_turn hci_vsc_write_i2spcm_interface_param w (omega arith) h (λ u same. ground arith) in
      (w', record { before = w; ran = refl; sent = omega arith; last = ran }, done)

  pub pcm_turns :
      {reports : ℕ} {s : Sco} {sent : List Bytes} (w : World)
      → s.bus_i2s ≡ false
      → Sets hci_vsc_write_i2spcm_interface_param Cback.sco_i2spcm_cfg reports s sent w
      → (w' : World) × Exchanged c e k 2 w w'
        × Settled reports s ((pcm_format_command c).bytes ∷ (sco_pcm_command s).bytes ∷ sent) w'
  unfolding turns after_reply
  pcm_turns {s = s} w pcm h =
      let (w₁, ran₁, h₁) =
        next_turn hci_vsc_write_i2spcm_interface_param hci_vsc_write_sco_pcm_int_param 5
          (sco_pcm_command s) w (omega arith) h (λ u same. ground arith) in
      let (w₂, ran₂, h₂) =
        next_turn hci_vsc_write_sco_pcm_int_param hci_vsc_write_pcm_data_format_param 5
          (pcm_format_command c) w₁ (omega arith) h₁ (λ u same. ground arith) in
      let (w₃, ran₃, h₃) =
        end_turn hci_vsc_write_pcm_data_format_param w₂ (omega arith) h₂ (λ u same. ground arith) in
      (
        w₃,
        record {
          before = w₂;
          ran = rw (ran₁, ran₂) refl;
          sent = sends-Sets _ ((pcm_format_command c).bytes ∷ (sco_pcm_command s).bytes ∷ []) h h₂;
          last = ran₃;
        },
        h₃,
      )
