-- ===== src/Uipc/Codecs/Mp2.antt =====
-- libbt/include/uipc_msg.h, lines 449-483: the parameters of MPEG-2 layer 3.
use myir_bluetooth.Common.{ℕ}

pub data Mp2Protection : Type 0 where
  on off : Mp2Protection

unfoldable pub mp2_protection : Mp2Protection → ℕ
mp2_protection on = 0x00
mp2_protection off = 0x01

pub data Mp2Bitrate : Type 0 where
  free k8k k16k k24k k32k k40k k48k k56k k64k k80k k96k k112k k128k k144k k160k : Mp2Bitrate

unfoldable pub mp2_bitrate : Mp2Bitrate → ℕ
mp2_bitrate free = 0x00
mp2_bitrate k8k = 0x01
mp2_bitrate k16k = 0x02
mp2_bitrate k24k = 0x03
mp2_bitrate k32k = 0x04
mp2_bitrate k40k = 0x05
mp2_bitrate k48k = 0x06
mp2_bitrate k56k = 0x07
mp2_bitrate k64k = 0x08
mp2_bitrate k80k = 0x09
mp2_bitrate k96k = 0x0A
mp2_bitrate k112k = 0x0B
mp2_bitrate k128k = 0x0C
mp2_bitrate k144k = 0x0D
mp2_bitrate k160k = 0x0E

pub data Mp2Sampling : Type 0 where
  f22k f24k f16k : Mp2Sampling

unfoldable pub mp2_sampling : Mp2Sampling → ℕ
mp2_sampling f22k = 0x00
mp2_sampling f24k = 0x01
mp2_sampling f16k = 0x02

pub data Mp2Mode : Type 0 where
  stereo joint_stereo dual single : Mp2Mode

unfoldable pub mp2_mode : Mp2Mode → ℕ
mp2_mode stereo = 0x00
mp2_mode joint_stereo = 0x01
mp2_mode dual = 0x02
mp2_mode single = 0x03

pub data Mp2Extension : Type 0 where
  off_off on_off off_on on_on : Mp2Extension

unfoldable pub mp2_extension : Mp2Extension → ℕ
mp2_extension off_off = 0x00
mp2_extension on_off = 0x01
mp2_extension off_on = 0x02
mp2_extension on_on = 0x03

abbrev pub mp2_sample_per_frame : ℕ
mp2_sample_per_frame = 576
