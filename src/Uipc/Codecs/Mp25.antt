-- ===== src/Uipc/Codecs/Mp25.antt =====
-- libbt/include/uipc_msg.h, lines 487-521: the parameters of MPEG-2.5 layer 3.
use myir_bluetooth.Common.{ℕ}

pub data Mp25Protection : Type 0 where
  on off : Mp25Protection

unfoldable pub mp25_protection : Mp25Protection → ℕ
mp25_protection on = 0x00
mp25_protection off = 0x01

pub data Mp25Bitrate : Type 0 where
  free k8k k16k k24k k32k k40k k48k k56k k64k k80k k96k k112k k128k k144k k160k : Mp25Bitrate

unfoldable pub mp25_bitrate : Mp25Bitrate → ℕ
mp25_bitrate free = 0x00
mp25_bitrate k8k = 0x01
mp25_bitrate k16k = 0x02
mp25_bitrate k24k = 0x03
mp25_bitrate k32k = 0x04
mp25_bitrate k40k = 0x05
mp25_bitrate k48k = 0x06
mp25_bitrate k56k = 0x07
mp25_bitrate k64k = 0x08
mp25_bitrate k80k = 0x09
mp25_bitrate k96k = 0x0A
mp25_bitrate k112k = 0x0B
mp25_bitrate k128k = 0x0C
mp25_bitrate k144k = 0x0D
mp25_bitrate k160k = 0x0E

pub data Mp25Sampling : Type 0 where
  f11k f12k f8k : Mp25Sampling

unfoldable pub mp25_sampling : Mp25Sampling → ℕ
mp25_sampling f11k = 0x00
mp25_sampling f12k = 0x01
mp25_sampling f8k = 0x02

pub data Mp25Mode : Type 0 where
  stereo joint_stereo dual single : Mp25Mode

unfoldable pub mp25_mode : Mp25Mode → ℕ
mp25_mode stereo = 0x00
mp25_mode joint_stereo = 0x01
mp25_mode dual = 0x02
mp25_mode single = 0x03

pub data Mp25Extension : Type 0 where
  off_off on_off off_on on_on : Mp25Extension

unfoldable pub mp25_extension : Mp25Extension → ℕ
mp25_extension off_off = 0x00
mp25_extension on_off = 0x01
mp25_extension off_on = 0x02
mp25_extension on_on = 0x03

abbrev pub mp25_sample_per_frame : ℕ
mp25_sample_per_frame = 576
