-- ===== src/Uipc/Codecs/Aac.antt =====
-- libbt/include/uipc_msg.h, lines 524-549: the parameters of AAC.
use myir_bluetooth.Common.{ℕ}

pub data AacSampling : Type 0 where
  f96k f88k f64k f48k f44k f32k f24k f22k f16k f12k f11k f08k reserve : AacSampling

unfoldable pub aac_sampling : AacSampling → ℕ
aac_sampling f96k = 0x0
aac_sampling f88k = 0x1
aac_sampling f64k = 0x2
aac_sampling f48k = 0x3
aac_sampling f44k = 0x4
aac_sampling f32k = 0x5
aac_sampling f24k = 0x6
aac_sampling f22k = 0x7
aac_sampling f16k = 0x8
aac_sampling f12k = 0x9
aac_sampling f11k = 0xA
aac_sampling f08k = 0xB
aac_sampling reserve = 0xC

pub data AacRate : Type 0 where
  rate_48k rate_44k rate_32k : AacRate

unfoldable pub aac_rate : AacRate → ℕ
aac_rate rate_48k = 288000
aac_rate rate_44k = 264600
aac_rate rate_32k = 192000

pub data AacChannels : Type 0 where
  channels_1 channels_2 channels_3 channels_4 channels_5 channels_6 channels_7 : AacChannels

unfoldable pub aac_channels : AacChannels → ℕ
aac_channels channels_1 = 1
aac_channels channels_2 = 2
aac_channels channels_3 = 3
aac_channels channels_4 = 4
aac_channels channels_5 = 5
aac_channels channels_6 = 6
aac_channels channels_7 = 7
