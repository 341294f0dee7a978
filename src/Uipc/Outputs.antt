-- ===== src/Uipc/Outputs.antt =====
-- libbt/include/uipc_msg.h, lines 653-674: the outputs of an audio route.
use myir_bluetooth.Common.{ℕ}
use myir_bluetooth.Uipc.Layout.{Layout}
use myir_bluetooth.Uipc.Types.{u8, u16}

pub data AudioRouteOut : Type 0 where
  no_out bta2dp fmtx btsco host dac i2s bta2dp_dac bta2dp_i2s btsco_dac btsco_i2s host_bta2dp
        host_btsco host_dac host_i2s dac_i2s reserved_2 :
      AudioRouteOut

unfoldable pub audio_route_out : AudioRouteOut → ℕ
audio_route_out no_out = 0x0000
audio_route_out bta2dp = 0x0001
audio_route_out fmtx = 0x0002
audio_route_out btsco = 0x0004
audio_route_out host = 0x0008
audio_route_out dac = 0x0010
audio_route_out i2s = 0x0020
audio_route_out bta2dp_dac = 0x0040
audio_route_out bta2dp_i2s = 0x0080
audio_route_out btsco_dac = 0x0100
audio_route_out btsco_i2s = 0x0200
audio_route_out host_bta2dp = 0x0400
audio_route_out host_btsco = 0x0800
audio_route_out host_dac = 0x1000
audio_route_out host_i2s = 0x2000
audio_route_out dac_i2s = 0x4000
audio_route_out reserved_2 = 0x8000

abbrev pub max_audio_single_route_out : ℕ
max_audio_single_route_out = 6

abbrev pub max_audio_multi_route_out : ℕ
max_audio_multi_route_out = 16

abbrev pub audio_multi_route_out_type : Layout
audio_multi_route_out_type = u16

abbrev pub audio_route_out_type : Layout
audio_route_out_type = u8
