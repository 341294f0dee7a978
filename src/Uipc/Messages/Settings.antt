-- ===== src/Uipc/Messages/Settings.antt =====
-- The constants of libbt/include/uipc_msg.h and the fields that they are written to.
use myir_bluetooth.Common.{ℕ, ◌%◌, ◌^◌, ◌<◌, ◌≡◌, ◌≢◌, refl, arith, ◌⊎◌, inl, inr}
use myir_bluetooth.Uipc.Layout.{size_of, layout_at}
use myir_bluetooth.Uipc.Outputs.{
  AudioRouteOut, audio_route_out, no_out, audio_route_out_type, audio_multi_route_out_type,
}
use myir_bluetooth.Uipc.Types.{BtTypes}
use myir_bluetooth.Uipc.Messages.{Structure, fields_of}
use myir_bluetooth.Uipc.Management
use myir_bluetooth.Uipc.Codecs.Sbc
use myir_bluetooth.Uipc.Codecs.Mp3
use myir_bluetooth.Uipc.Codecs.Mp2
use myir_bluetooth.Uipc.Codecs.Mp25
use myir_bluetooth.Uipc.Codecs.Aac
use myir_bluetooth.Uipc.Codecs
use myir_bluetooth.Uipc.Routes
use myir_bluetooth.Uipc.Slip
use myir_bluetooth.Uipc.L2cap
use myir_bluetooth.Uipc.Avdtp

-- A constant for a field of a structure.
pub data Setting : Type 0 where
  for_uipc_status : Management.UipcStatus → Setting
  for_sbc_sampling : Sbc.SbcSampling → Setting
  for_sbc_channels : Sbc.SbcChannels → Setting
  for_sbc_block : Sbc.SbcBlock → Setting
  for_sbc_subbands : Sbc.SbcSubbands → Setting
  for_sbc_allocation : Sbc.SbcAllocation → Setting
  for_mp3_mode : Mp3.Mp3Mode → Setting
  for_mp3_sampling : Mp3.Mp3Sampling → Setting
  for_mp3_bitrate : Mp3.Mp3Bitrate → Setting
  for_mp2_mode : Mp2.Mp2Mode → Setting
  for_mp2_sampling : Mp2.Mp2Sampling → Setting
  for_mp2_bitrate : Mp2.Mp2Bitrate → Setting
  for_mp25_mode : Mp25.Mp25Mode → Setting
  for_mp25_sampling : Mp25.Mp25Sampling → Setting
  for_mp25_bitrate : Mp25.Mp25Bitrate → Setting
  for_aac_sampling : Aac.AacSampling → Setting
  for_aac_channels : Aac.AacChannels → Setting
  for_aac_rate : Aac.AacRate → Setting
  for_audio_codec : Codecs.AudioCodec → Setting
  for_audio_config_status : Codecs.AudioConfigStatus → Setting
  for_audio_route_src : Routes.AudioRouteSrc → Setting
  for_audio_route_sf : Routes.AudioRouteSf → Setting
  for_audio_route_eq : Routes.AudioRouteEq → Setting
  for_audio_route_mix : Routes.AudioRouteMix → Setting
  for_slip_status : Slip.SlipStatus → Setting
  for_l2c_status : L2cap.L2cStatus → Setting
  for_avdt_status : Avdtp.AvdtStatus → Setting

abbrev pub code : Setting → ℕ
code (for_uipc_status v) = Management.uipc_status v
code (for_sbc_sampling v) = Sbc.sbc_sampling v
code (for_sbc_channels v) = Sbc.sbc_channels v
code (for_sbc_block v) = Sbc.sbc_block v
code (for_sbc_subbands v) = Sbc.sbc_subbands v
code (for_sbc_allocation v) = Sbc.sbc_allocation v
code (for_mp3_mode v) = Mp3.mp3_mode v
code (for_mp3_sampling v) = Mp3.mp3_sampling v
code (for_mp3_bitrate v) = Mp3.mp3_bitrate v
code (for_mp2_mode v) = Mp2.mp2_mode v
code (for_mp2_sampling v) = Mp2.mp2_sampling v
code (for_mp2_bitrate v) = Mp2.mp2_bitrate v
code (for_mp25_mode v) = Mp25.mp25_mode v
code (for_mp25_sampling v) = Mp25.mp25_sampling v
code (for_mp25_bitrate v) = Mp25.mp25_bitrate v
code (for_aac_sampling v) = Aac.aac_sampling v
code (for_aac_channels v) = Aac.aac_channels v
code (for_aac_rate v) = Aac.aac_rate v
code (for_audio_codec v) = Codecs.audio_codec v
code (for_audio_config_status v) = Codecs.audio_config_status v
code (for_audio_route_src v) = Routes.audio_route_src v
code (for_audio_route_sf v) = Routes.audio_route_sf v
code (for_audio_route_eq v) = Routes.audio_route_eq v
code (for_audio_route_mix v) = Routes.audio_route_mix v
code (for_slip_status v) = Slip.slip_status v
code (for_l2c_status v) = L2cap.l2c_status v
code (for_avdt_status v) = Avdtp.avdt_status v

-- The structure that has the field, and the position of the field in it.
abbrev pub owner : Setting → Structure
owner (for_uipc_status _) = Structure.uipc_open_rsp
owner (for_sbc_sampling _) = Structure.codec_info_sbc
owner (for_sbc_channels _) = Structure.codec_info_sbc
owner (for_sbc_block _) = Structure.codec_info_sbc
owner (for_sbc_subbands _) = Structure.codec_info_sbc
owner (for_sbc_allocation _) = Structure.codec_info_sbc
owner (for_mp3_mode _) = Structure.codec_info_mp3
owner (for_mp3_sampling _) = Structure.codec_info_mp3
owner (for_mp3_bitrate _) = Structure.codec_info_mp3
owner (for_mp2_mode _) = Structure.codec_info_mp2
owner (for_mp2_sampling _) = Structure.codec_info_mp2
owner (for_mp2_bitrate _) = Structure.codec_info_mp2
owner (for_mp25_mode _) = Structure.codec_info_mp2_5
owner (for_mp25_sampling _) = Structure.codec_info_mp2_5
owner (for_mp25_bitrate _) = Structure.codec_info_mp2_5
owner (for_aac_sampling _) = Structure.codec_info_aac
owner (for_aac_channels _) = Structure.codec_info_aac
owner (for_aac_rate _) = Structure.codec_info_aac
owner (for_audio_codec _) = Structure.codec_config_req
owner (for_audio_config_status _) = Structure.codec_config_resp
owner (for_audio_route_src _) = Structure.route_config_req
owner (for_audio_route_sf _) = Structure.route_config_req
owner (for_audio_route_eq _) = Structure.route_config_req
owner (for_audio_route_mix _) = Structure.mix_config_req
owner (for_slip_status _) = Structure.slip_sync_info
owner (for_l2c_status _) = Structure.l2c_sync_to_lite_resp_stream
owner (for_avdt_status _) = Structure.avdt_sync_info

abbrev pub position : Setting → ℕ
position (for_uipc_status _) = 1
position (for_sbc_sampling _) = 0
position (for_sbc_channels _) = 1
position (for_sbc_block _) = 2
position (for_sbc_subbands _) = 3
position (for_sbc_allocation _) = 4
position (for_mp3_mode _) = 0
position (for_mp3_sampling _) = 1
position (for_mp3_bitrate _) = 2
position (for_mp2_mode _) = 0
position (for_mp2_sampling _) = 1
position (for_mp2_bitrate _) = 2
position (for_mp25_mode _) = 0
position (for_mp25_sampling _) = 1
position (for_mp25_bitrate _) = 2
position (for_aac_sampling _) = 0
position (for_aac_channels _) = 1
position (for_aac_rate _) = 2
position (for_audio_codec _) = 1
position (for_audio_config_status _) = 1
position (for_audio_route_src _) = 1
position (for_audio_route_sf _) = 2
position (for_audio_route_eq _) = 6
position (for_audio_route_mix _) = 1
position (for_slip_status _) = 1
position (for_l2c_status _) = 1
position (for_avdt_status _) = 1

-- Each constant is in the range of the type of the field that it is written to.
pub code-lt :
    (types : BtTypes) (s : Setting)
    → code s < 256 ^ size_of (layout_at (fields_of types (owner s)) (position s))
unfolding size_of Management.uipc_status Sbc.sbc_sampling Sbc.sbc_channels Sbc.sbc_block
    Sbc.sbc_subbands Sbc.sbc_allocation Mp3.mp3_mode Mp3.mp3_sampling Mp3.mp3_bitrate Mp2.mp2_mode
    Mp2.mp2_sampling Mp2.mp2_bitrate Mp25.mp25_mode Mp25.mp25_sampling Mp25.mp25_bitrate
    Aac.aac_sampling Aac.aac_channels Aac.aac_rate Codecs.audio_codec Codecs.audio_config_status
    Routes.audio_route_src Routes.audio_route_sf Routes.audio_route_eq Routes.audio_route_mix
    Slip.slip_status L2cap.l2c_status Avdtp.avdt_status
code-lt types (for_uipc_status v) = ground arith
code-lt types (for_sbc_sampling v) = ground arith
code-lt types (for_sbc_channels v) = ground arith
code-lt types (for_sbc_block v) = ground arith
code-lt types (for_sbc_subbands v) = ground arith
code-lt types (for_sbc_allocation v) = ground arith
code-lt types (for_mp3_mode v) = ground arith
code-lt types (for_mp3_sampling v) = ground arith
code-lt types (for_mp3_bitrate v) = ground arith
code-lt types (for_mp2_mode v) = ground arith
code-lt types (for_mp2_sampling v) = ground arith
code-lt types (for_mp2_bitrate v) = ground arith
code-lt types (for_mp25_mode v) = ground arith
code-lt types (for_mp25_sampling v) = ground arith
code-lt types (for_mp25_bitrate v) = ground arith
code-lt types (for_aac_sampling v) = ground arith
code-lt types (for_aac_channels v) = ground arith
code-lt types (for_aac_rate v) = ground arith
code-lt types (for_audio_codec v) = ground arith
code-lt types (for_audio_config_status v) = ground arith
code-lt types (for_audio_route_src v) = ground arith
code-lt types (for_audio_route_sf v) = ground arith
code-lt types (for_audio_route_eq v) = ground arith
code-lt types (for_audio_route_mix v) = ground arith
code-lt types (for_slip_status v) = ground arith
code-lt types (for_l2c_status v) = ground arith
code-lt types (for_avdt_status v) = ground arith

-- Each output of a route fits into the type for several outputs. The conversion to the type of
-- the field `out` of a route request keeps it, or makes the output NONE of another.
pub audio_route_out_cases :
    (r : AudioRouteOut)
    → (audio_route_out r < 256 ^ size_of audio_multi_route_out_type)
      × ((audio_route_out r % 256 ^ size_of audio_route_out_type ≡ audio_route_out r)
          ⊎ ((audio_route_out r % 256 ^ size_of audio_route_out_type ≡ audio_route_out no_out)
              × (audio_route_out r ≢ audio_route_out no_out)))
unfolding size_of audio_route_out
audio_route_out_cases AudioRouteOut.no_out = (omega arith, inl refl)
audio_route_out_cases AudioRouteOut.bta2dp = (omega arith, inl refl)
audio_route_out_cases AudioRouteOut.fmtx = (omega arith, inl refl)
audio_route_out_cases AudioRouteOut.btsco = (omega arith, inl refl)
audio_route_out_cases AudioRouteOut.host = (omega arith, inl refl)
audio_route_out_cases AudioRouteOut.dac = (omega arith, inl refl)
audio_route_out_cases AudioRouteOut.i2s = (omega arith, inl refl)
audio_route_out_cases AudioRouteOut.bta2dp_dac = (omega arith, inl refl)
audio_route_out_cases AudioRouteOut.bta2dp_i2s = (omega arith, inl refl)
audio_route_out_cases AudioRouteOut.btsco_dac = (omega arith, inr (refl, omega arith))
audio_route_out_cases AudioRouteOut.btsco_i2s = (omega arith, inr (refl, omega arith))
audio_route_out_cases AudioRouteOut.host_bta2dp = (omega arith, inr (refl, omega arith))
audio_route_out_cases AudioRouteOut.host_btsco = (omega arith, inr (refl, omega arith))
audio_route_out_cases AudioRouteOut.host_dac = (omega arith, inr (refl, omega arith))
audio_route_out_cases AudioRouteOut.host_i2s = (omega arith, inr (refl, omega arith))
audio_route_out_cases AudioRouteOut.dac_i2s = (omega arith, inr (refl, omega arith))
audio_route_out_cases AudioRouteOut.reserved_2 = (omega arith, inr (refl, omega arith))
