-- ===== src/Uipc/Codecs.antt =====
-- libbt/include/uipc_msg.h, lines 369-631: the choice of a codec and its parameters.
pub mod Sbc
pub mod Mpeg
pub mod Mp3
pub mod Mp2
pub mod Mp25
pub mod Aac
use myir_bluetooth.Common.{ℕ, List, [], ◌∷◌}
use myir_bluetooth.Uipc.Layout.{Layout, array}
use myir_bluetooth.Uipc.Types.{u8, u16, u32, BtTypes, packed, one_of}

pub data AudioCodec : Type 0 where
  no_codec sbc_enc sbc_dec mp3_enc mp3_dec aac_enc aac_dec aac_plus_enc aac_plus_dec mp2_enc mp2_dec
        mp2_5_enc mp2_5_dec :
      AudioCodec

unfoldable pub audio_codec : AudioCodec → ℕ
audio_codec no_codec = 0x0000
audio_codec sbc_enc = 0x0001
audio_codec sbc_dec = 0x0002
audio_codec mp3_enc = 0x0004
audio_codec mp3_dec = 0x0008
audio_codec aac_enc = 0x0010
audio_codec aac_dec = 0x0020
audio_codec aac_plus_enc = 0x0040
audio_codec aac_plus_dec = 0x0080
audio_codec mp2_enc = 0x0100
audio_codec mp2_dec = 0x0200
audio_codec mp2_5_enc = 0x0400
audio_codec mp2_5_dec = 0x0800

abbrev pub audio_codec_type : Layout
audio_codec_type = u16

abbrev pub codec_info_sbc : Layout
codec_info_sbc = packed (
    ("sampling_freq", u8)
    ∷ ("channel_mode", u8)
    ∷ ("block_length", u8)
    ∷ ("num_subbands", u8)
    ∷ ("alloc_method", u8)
    ∷ ("bitpool_size", u8)
    ∷ [])

abbrev pub codec_info_mp3 : Layout
codec_info_mp3 = packed (("ch_mode", u8) ∷ ("sampling_freq", u8) ∷ ("bitrate_index", u8) ∷ [])

abbrev pub codec_info_mp2 : Layout
codec_info_mp2 = packed (("ch_mode", u8) ∷ ("sampling_freq", u8) ∷ ("bitrate_index", u8) ∷ [])

abbrev pub codec_info_mp2_5 : Layout
codec_info_mp2_5 = packed (("ch_mode", u8) ∷ ("sampling_freq", u8) ∷ ("bitrate_index", u8) ∷ [])

abbrev pub codec_info_aac : Layout
codec_info_aac =
    packed
      (("sampling_freq", u16) ∷ ("channel_mode", u8) ∷ ("bitrate", u32) ∷ ("sbr_profile", u32) ∷ [])

abbrev pub codec_info : Layout
codec_info = one_of (
    ("sbc", codec_info_sbc)
    ∷ ("mp3", codec_info_mp3)
    ∷ ("mp2", codec_info_mp2)
    ∷ ("mp2_5", codec_info_mp2_5)
    ∷ ("aac", codec_info_aac)
    ∷ [])

abbrev pub codec_config_req : Layout
codec_config_req =
    packed (("opcode", u8) ∷ ("codec_type", audio_codec_type) ∷ ("codec_info", codec_info) ∷ [])

pub data AudioConfigStatus : Type 0 where
  success not_supported fail_out_of_memory fail_codec_used fail_route : AudioConfigStatus

unfoldable pub audio_config_status : AudioConfigStatus → ℕ
audio_config_status success = 0x00
audio_config_status not_supported = 0x01
audio_config_status fail_out_of_memory = 0x02
audio_config_status fail_codec_used = 0x03
audio_config_status fail_route = 0x04

abbrev pub audio_config_status_type : Layout
audio_config_status_type = u8

abbrev pub codec_config_resp : Layout
codec_config_resp = packed (("opcode", u8) ∷ ("status", audio_config_status_type) ∷ [])

abbrev pub codec_bitrate : Layout
codec_bitrate = one_of (("sbc", u8) ∷ ("mp3", u8) ∷ ("aac", u32) ∷ [])

abbrev pub codec_set_bitrate_req : Layout
codec_set_bitrate_req =
    packed
      (("opcode", u8) ∷ ("codec_type", audio_codec_type) ∷ ("codec_bitrate", codec_bitrate) ∷ [])

abbrev pub codec_flush_req : Layout
codec_flush_req = packed (("opcode", u8) ∷ [])
