-- ===== src/Uipc/Routes.antt =====
-- libbt/include/uipc_msg.h, lines 633-699: sources, mixing, sampling frequencies and equalizers.
use myir_bluetooth.Common.{ℕ}
use myir_bluetooth.Uipc.Layout.{Layout}
use myir_bluetooth.Uipc.Types.{u8}

pub data AudioRouteSrc : Type 0 where
  fmrx i2s adc host ptu btsnk no_src : AudioRouteSrc

unfoldable pub audio_route_src : AudioRouteSrc → ℕ
audio_route_src fmrx = 0x00
audio_route_src i2s = 0x01
audio_route_src adc = 0x02
audio_route_src host = 0x03
audio_route_src ptu = 0x04
audio_route_src btsnk = 0x05
audio_route_src no_src = 0x80

abbrev pub max_audio_route_src : ℕ
max_audio_route_src = 6

abbrev pub audio_route_src_type : Layout
audio_route_src_type = u8

pub data AudioRouteMix : Type 0 where
  no_mix host_mix pcm chirp i2s_mix adc_mix reserved : AudioRouteMix

unfoldable pub audio_route_mix : AudioRouteMix → ℕ
audio_route_mix no_mix = 0x00
audio_route_mix host_mix = 0x01
audio_route_mix pcm = 0x02
audio_route_mix chirp = 0x03
audio_route_mix i2s_mix = 0x04
audio_route_mix adc_mix = 0x05
audio_route_mix reserved = 0x06

abbrev pub max_audio_route_mix : ℕ
max_audio_route_mix = 7

abbrev pub audio_route_mix_type : Layout
audio_route_mix_type = u8

pub data AudioRouteSf : Type 0 where
  f8k f16k f32k f44_1k f48k f11k f12k f22k f24k na : AudioRouteSf

unfoldable pub audio_route_sf : AudioRouteSf → ℕ
audio_route_sf f8k = 0x00
audio_route_sf f16k = 0x01
audio_route_sf f32k = 0x02
audio_route_sf f44_1k = 0x03
audio_route_sf f48k = 0x04
audio_route_sf f11k = 0x05
audio_route_sf f12k = 0x06
audio_route_sf f22k = 0x07
audio_route_sf f24k = 0x08
audio_route_sf na = 0xFF

abbrev pub audio_route_sf_type : Layout
audio_route_sf_type = u8

pub data AudioRouteEq : Type 0 where
  bass_boost classic jazz live normal rock bypass digital_volume_control config_gain : AudioRouteEq

unfoldable pub audio_route_eq : AudioRouteEq → ℕ
audio_route_eq bass_boost = 0x00
audio_route_eq classic = 0x01
audio_route_eq jazz = 0x02
audio_route_eq live = 0x03
audio_route_eq normal = 0x04
audio_route_eq rock = 0x05
audio_route_eq bypass = 0x06
audio_route_eq digital_volume_control = 0x07
audio_route_eq config_gain = 0xFF

abbrev pub audio_route_eq_type : Layout
audio_route_eq_type = u8
