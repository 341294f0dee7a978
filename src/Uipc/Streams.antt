-- ===== src/Uipc/Streams.antt =====
-- libbt/include/uipc_msg.h, lines 296-367: audio opcodes, and the start and end of a stream.
use myir_bluetooth.Common.{ℕ, [], ◌∷◌}
use myir_bluetooth.Uipc.Layout.{Layout}
use myir_bluetooth.Uipc.Types.{u8, u16, packed}

pub data AudioOpcode : Type 0 where
  bta_av_sync_to_lite_req bta_av_sync_to_lite_resp bta_av_str_start_to_lite_req
        bta_av_str_start_to_lite_resp bta_av_str_stop_to_lite_req bta_av_str_stop_to_lite_resp
        bta_av_str_cleanup_to_lite_req bta_av_str_cleanup_to_lite_resp
        bta_av_str_suspend_to_lite_req bta_av_str_suspend_to_lite_resp bta_av_sync_error_resp
        a2dp_start_req a2dp_start_resp a2dp_stop_req a2dp_stop_resp a2dp_cleanup_req
        a2dp_cleanup_resp a2dp_suspend_req a2dp_suspend_resp a2dp_jitter_done_ind
        audio_codec_config_req audio_codec_config_resp audio_codec_set_bitrate_req
        audio_codec_flush_req audio_route_config_req audio_route_config_resp audio_mix_config_req
        audio_mix_config_resp audio_burst_frames_ind audio_burst_end_ind audio_eq_mode_config_req
        audio_scale_config_req audio_sub_route_req audio_sub_route_resp :
      AudioOpcode

unfoldable pub audio_opcode : AudioOpcode → ℕ
audio_opcode bta_av_sync_to_lite_req = 0
audio_opcode bta_av_sync_to_lite_resp = 1
audio_opcode bta_av_str_start_to_lite_req = 2
audio_opcode bta_av_str_start_to_lite_resp = 3
audio_opcode bta_av_str_stop_to_lite_req = 4
audio_opcode bta_av_str_stop_to_lite_resp = 5
audio_opcode bta_av_str_cleanup_to_lite_req = 6
audio_opcode bta_av_str_cleanup_to_lite_resp = 7
audio_opcode bta_av_str_suspend_to_lite_req = 8
audio_opcode bta_av_str_suspend_to_lite_resp = 9
audio_opcode bta_av_sync_error_resp = 10
audio_opcode a2dp_start_req = 11
audio_opcode a2dp_start_resp = 12
audio_opcode a2dp_stop_req = 13
audio_opcode a2dp_stop_resp = 14
audio_opcode a2dp_cleanup_req = 15
audio_opcode a2dp_cleanup_resp = 16
audio_opcode a2dp_suspend_req = 17
audio_opcode a2dp_suspend_resp = 18
audio_opcode a2dp_jitter_done_ind = 41
audio_opcode audio_codec_config_req = 19
audio_opcode audio_codec_config_resp = 20
audio_opcode audio_codec_set_bitrate_req = 21
audio_opcode audio_codec_flush_req = 22
audio_opcode audio_route_config_req = 23
audio_opcode audio_route_config_resp = 24
audio_opcode audio_mix_config_req = 25
audio_opcode audio_mix_config_resp = 26
audio_opcode audio_burst_frames_ind = 27
audio_opcode audio_burst_end_ind = 28
audio_opcode audio_eq_mode_config_req = 29
audio_opcode audio_scale_config_req = 30
audio_opcode audio_sub_route_req = 51
audio_opcode audio_sub_route_resp = 52

abbrev pub start_req : Layout
start_req = packed (("opcode", u8) ∷ ("lcid", u16) ∷ ("curr_mtu", u16) ∷ [])

abbrev pub stop_req : Layout
stop_req = packed (("opcode", u8) ∷ ("lcid", u16) ∷ [])

abbrev pub suspend_req : Layout
suspend_req = packed (("opcode", u8) ∷ ("lcid", u16) ∷ [])

abbrev pub cleanup_req : Layout
cleanup_req = packed (("opcode", u8) ∷ ("lcid", u16) ∷ ("curr_mtu", u16) ∷ [])

abbrev pub a2dp_generic_resp : Layout
a2dp_generic_resp = packed (("opcode", u8) ∷ ("lcid", u16) ∷ [])
