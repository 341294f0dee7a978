-- ===== src/Uipc/Mixer.antt =====
-- libbt/include/uipc_msg.h, lines 701-794: the requests on routes, mixing and the equalizer.
use myir_bluetooth.Common.{[], ◌∷◌}
use myir_bluetooth.Uipc.Layout.{Layout, array}
use myir_bluetooth.Uipc.Types.{u8, u16, u32, packed}
use myir_bluetooth.Uipc.Codecs.{audio_config_status_type}
use myir_bluetooth.Uipc.Outputs.{audio_route_out_type}
use myir_bluetooth.Uipc.Routes.{
  audio_route_src_type, audio_route_sf_type, audio_route_eq_type, audio_route_mix_type,
}

abbrev pub route_config_req : Layout
route_config_req = packed (
    ("opcode", u8)
    ∷ ("src", audio_route_src_type)
    ∷ ("src_sf", audio_route_sf_type)
    ∷ ("out", audio_route_out_type)
    ∷ ("out_codec_sf", audio_route_sf_type)
    ∷ ("out_i2s_sf", audio_route_sf_type)
    ∷ ("eq_mode", audio_route_eq_type)
    ∷ [])

abbrev pub route_config_resp : Layout
route_config_resp = packed (("opcode", u8) ∷ ("status", audio_config_status_type) ∷ [])

abbrev pub chirp_config : Layout
chirp_config = packed (
    ("amp", array 2 u16)
    ∷ ("tone", array 2 u16)
    ∷ ("mark", array 2 u16)
    ∷ ("space", array 2 u16)
    ∷ [])

abbrev pub mix_scale_config : Layout
mix_scale_config = packed (("pri_l", u8) ∷ ("mix_l", u8) ∷ ("pri_r", u8) ∷ ("mix_r", u8) ∷ [])

abbrev pub eq_gain_config : Layout
eq_gain_config = packed (
    ("audio_l_g0", u32)
    ∷ ("audio_l_g1", u32)
    ∷ ("audio_l_g2", u32)
    ∷ ("audio_l_g3", u32)
    ∷ ("audio_l_g4", u32)
    ∷ ("audio_l_gl", u32)
    ∷ ("audio_r_g0", u32)
    ∷ ("audio_r_g1", u32)
    ∷ ("audio_r_g2", u32)
    ∷ ("audio_r_g3", u32)
    ∷ ("audio_r_g4", u32)
    ∷ ("audio_r_gl", u32)
    ∷ [])

abbrev pub mix_config_req : Layout
mix_config_req = packed (
    ("opcode", u8)
    ∷ ("mix_src", audio_route_mix_type)
    ∷ ("mix_src_sf", audio_route_sf_type)
    ∷ ("mix_scale", mix_scale_config)
    ∷ ("chirp_config", chirp_config)
    ∷ [])

abbrev pub mix_config_resp : Layout
mix_config_resp = packed (("opcode", u8) ∷ ("status", audio_config_status_type) ∷ [])

abbrev pub burst_frames_ind : Layout
burst_frames_ind = packed (("opcode", u8) ∷ ("burst_size", u32) ∷ [])

abbrev pub burst_end_ind : Layout
burst_end_ind = packed (("opcode", u8) ∷ [])

abbrev pub eq_mode_config_req : Layout
eq_mode_config_req =
    packed
      (("opcode", u8) ∷ ("eq_mode", audio_route_eq_type) ∷ ("filter_gain", eq_gain_config) ∷ [])

abbrev pub scale_config_req : Layout
scale_config_req = packed (("opcode", u8) ∷ ("mix_scale", mix_scale_config) ∷ [])
