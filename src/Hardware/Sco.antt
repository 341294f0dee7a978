-- ===== src/Hardware/Sco.antt =====
-- Audio over SCO in libbt/src/hardware.c. `none` is undefined behaviour: a read past an event, or
-- a call through `bt_vendor_cbacks` while it is NULL.
use myir_bluetooth.Common.{
  ℕ, ◌+◌, ◌-◌, ◌%◌, Bool, false, not, ◌&&◌, Option, none, some, [], ◌∷◌, ◌==◌, ltb, if◌then◌else◌,
  Bytes, ◌>>=◌,
}
use myir_bluetooth.Config.{Config, sco_bytes, pcm_bytes, i2s_bytes}
use myir_bluetooth.Hardware.Hci.{
  hci_vsc_write_i2spcm_interface_param, hci_vsc_write_sco_pcm_int_param,
  hci_vsc_write_pcm_data_format_param, hci_vsc_enable_wbs, hci_cmd_preamble_size, packet,
  uint16_to_stream, evt_status, evt_opcode,
}
use myir_bluetooth.Platform.{
  Env, Evt, Cback, Packet, OpResult, success, fail, dealloc, audio_state_cb, scocfg_cb,
}
use myir_bluetooth.World.{World, Sco, log, call_alloc, call_xmit}

abbrev pub sco_i2spcm_param_size : ℕ
sco_i2spcm_param_size = 4

abbrev pub sco_pcm_param_size : ℕ
sco_pcm_param_size = 5

abbrev pub pcm_data_format_param_size : ℕ
pcm_data_format_param_size = 5

abbrev pub sco_codec_param_size : ℕ
sco_codec_param_size = 3

abbrev pub invalid_sco_clock_rate : ℕ
invalid_sco_clock_rate = 0xff

abbrev pub set_sco : Sco → World → World
set_sco s w = record w { sco = s }

-- A command with `n` bytes of parameters.
abbrev pub param_command : ℕ → ℕ → Bytes → Packet
param_command opcode n params =
    packet (hci_cmd_preamble_size + n) (uint16_to_stream opcode (n ∷ params))

-- The rates that a codec takes; any codec but mSBC is treated as CVSD.
unfoldable pub select_codec : Config → Env → ℕ → Sco → Sco
select_codec c e codec s =
    let wide : Bool = not (codec == e.sco_codec_cvsd) && codec == e.sco_codec_msbc in
    let rate : ℕ = if wide then s.wbs_clock_rate else s.clock_rate in
    record s {
      i2spcm_param = record s.i2spcm_param {
        sample_rate = if wide then c.sco_wbs_sample_rate % 256 else 0;
        clock_rate = rate;
      };
      sco_param = record s.sco_param { clock_rate = rate };
    }

-- The settings of `hw_sco_config`, before it sends anything.
unfoldable pub sco_settings : Config → Sco → Sco
sco_settings c s =
    let s₁ : Sco =
      if s.bus_i2s
      then record s {
        i2spcm_param = record s.i2spcm_param { mode = 1 };
        clock_rate = s.i2spcm_param.clock_rate;
      }
      else record s {
        i2spcm_param = record s.i2spcm_param { mode = 0; role = s.sco_param.clock_mode };
        clock_rate = s.sco_param.clock_rate;
      } in
    if s₁.wbs_clock_rate == invalid_sco_clock_rate
    then record s₁ {
      wbs_clock_rate =
          if ltb (c.sco_i2spcm_if_clock_rate4wbs % 256) s₁.clock_rate
          then s₁.clock_rate
          else c.sco_i2spcm_if_clock_rate4wbs % 256;
    }
    else s₁

module _ (c : Config) (e : Env) where
  -- A command with its own buffer: whether the stack took it. A refused buffer is given back.
  unfoldable pub send_params : ℕ → Packet → Cback → ℕ → World → World × Bool
  send_params opcode p k size w =
      if w.cbacks
      then (let (w₁, p_buf) = call_alloc e (e.bt_hc_hdr_size + hci_cmd_preamble_size + size) w in
          elim p_buf [
            | none ↦ (w₁, false)
            | some addr ↦
                let (w₂, ret) = call_xmit e opcode addr p k w₁ in
                (if ret then w₂ else log (dealloc addr) w₂, ret)
          ])
      else (w, false)

  unfoldable pub report_audio : OpResult → World → World
  report_audio r w = if w.cbacks then log (audio_state_cb r) w else w

  -- The settings change only if there is a buffer. The report does not test for NULL.
  unfoldable pub hw_sco_i2spcm_config : ℕ → World → Option World
  hw_sco_i2spcm_config codec w =
      if w.cbacks
      then (let (w₁, p_buf) =
            call_alloc e (e.bt_hc_hdr_size + hci_cmd_preamble_size + sco_i2spcm_param_size) w in
          elim p_buf [
            | none ↦ some (log (audio_state_cb fail) w₁)
            | some addr ↦
                let s : Sco = select_codec c e codec w₁.sco in
                let p : Packet =
                  param_command hci_vsc_write_i2spcm_interface_param sco_i2spcm_param_size
                    (i2s_bytes s.i2spcm_param) in
                let (w₂, ret) =
                  call_xmit e hci_vsc_write_i2spcm_interface_param addr p Cback.sco_i2spcm_cfg
                    (set_sco s w₁) in
                some (if ret then w₂ else log (audio_state_cb fail) (log (dealloc addr) w₂))
          ])
      else none

  unfoldable pub hw_sco_config : World → Option World
  hw_sco_config w = do
    let w₁ : World = set_sco (sco_settings c w.sco) w
    w₂ ← if w₁.sco.bus_i2s then hw_sco_i2spcm_config e.sco_codec_cvsd w₁ else some w₁
    some (if w₂.cbacks then log (scocfg_cb success) w₂ else w₂)

  unfoldable pub free_event : Evt → World → World
  free_event v w = if w.cbacks then log (dealloc v.addr) w else w

  unfoldable pub hw_sco_i2spcm_config_from_command : Evt → ℕ → World → Option World
  hw_sco_i2spcm_config_from_command v codec w = do
    status ← evt_status v
    let w₁ : World = free_event v w
    if status == 0 then hw_sco_i2spcm_config codec w₁ else some (report_audio fail w₁)

  unfoldable pub hw_set_msbc_codec_cback : Evt → World → Option World
  hw_set_msbc_codec_cback v w = hw_sco_i2spcm_config_from_command v e.sco_codec_msbc w

  unfoldable pub hw_set_cvsd_codec_cback : Evt → World → Option World
  hw_set_cvsd_codec_cback v w = hw_sco_i2spcm_config_from_command v e.sco_codec_cvsd w

  -- One more command: if it is sent, nothing is reported yet; if not, the outcome is FAIL.
  unfoldable pub send_next : ℕ → Packet → ℕ → World → World
  send_next opcode p size w =
      let (w₁, sent) = send_params opcode p Cback.sco_i2spcm_cfg size w in
      if sent then w₁ else report_audio fail w₁

  -- What follows the reply to `opcode`.
  unfoldable pub after_reply : ℕ → World → World
  after_reply opcode w =
      if opcode == hci_vsc_write_i2spcm_interface_param && not w.sco.bus_i2s
      then send_next hci_vsc_write_sco_pcm_int_param
          (param_command hci_vsc_write_sco_pcm_int_param sco_pcm_param_size
            (sco_bytes w.sco.sco_param))
          sco_pcm_param_size w
      else if opcode == hci_vsc_write_sco_pcm_int_param && not w.sco.bus_i2s
      then send_next hci_vsc_write_pcm_data_format_param
          (param_command hci_vsc_write_pcm_data_format_param pcm_data_format_param_size
            (pcm_bytes c.pcm_data_fmt))
          pcm_data_format_param_size w
      else report_audio success w

  unfoldable pub hw_sco_i2spcm_cfg_cback : Evt → World → Option World
  hw_sco_i2spcm_cfg_cback v w = do
    opcode ← evt_opcode v
    status ← evt_status v
    let w₁ : World = free_event v w
    some (if status == 0 then after_reply opcode w₁ else report_audio fail w₁)

  -- The flag is the return value: `true` is 0, `false` is -1.
  unfoldable pub hw_set_sco_codec : ℕ → World → World × Bool
  hw_set_sco_codec codec w =
      if codec == e.sco_codec_msbc
      then send_params hci_vsc_enable_wbs
          (packet (hci_cmd_preamble_size + sco_codec_param_size) (
            uint16_to_stream hci_vsc_enable_wbs
              (sco_codec_param_size ∷ 1 ∷ uint16_to_stream codec [])))
          Cback.set_msbc_codec sco_codec_param_size w
      else send_params hci_vsc_enable_wbs
          (packet (hci_cmd_preamble_size + sco_codec_param_size - 2)
            (uint16_to_stream hci_vsc_enable_wbs ((sco_codec_param_size - 2) ∷ 0 ∷ [])))
          Cback.set_cvsd_codec sco_codec_param_size w
