-- ===== src/Uipc/Codecs/Sbc.antt =====
-- libbt/include/uipc_msg.h, lines 387-406: the parameters of SBC.
use myir_bluetooth.Common.{ℕ}

pub data SbcSampling : Type 0 where
  f16k f32k f44k f48k : SbcSampling

unfoldable pub sbc_sampling : SbcSampling → ℕ
sbc_sampling f16k = 0x00
sbc_sampling f32k = 0x01
sbc_sampling f44k = 0x02
sbc_sampling f48k = 0x03

pub data SbcBlock : Type 0 where
  block_4 block_8 block_12 block_16 : SbcBlock

unfoldable pub sbc_block : SbcBlock → ℕ
sbc_block block_4 = 0x00
sbc_block block_8 = 0x01
sbc_block block_12 = 0x02
sbc_block block_16 = 0x03

pub data SbcChannels : Type 0 where
  mono dual stereo joint_stereo : SbcChannels

unfoldable pub sbc_channels : SbcChannels → ℕ
sbc_channels mono = 0x00
sbc_channels dual = 0x01
sbc_channels stereo = 0x02
sbc_channels joint_stereo = 0x03

pub data SbcAllocation : Type 0 where
  loudness snr : SbcAllocation

unfoldable pub sbc_allocation : SbcAllocation → ℕ
sbc_allocation loudness = 0x00
sbc_allocation snr = 0x01

pub data SbcSubbands : Type 0 where
  subbands_4 subbands_8 : SbcSubbands

unfoldable pub sbc_subbands : SbcSubbands → ℕ
sbc_subbands subbands_4 = 0x00
sbc_subbands subbands_8 = 0x01
