-- ===== src/Uipc/Codecs/Mp3.antt =====
-- libbt/include/uipc_msg.h, lines 414-446: the parameters of MPEG-1 layer 3.
use myir_bluetooth.Common.{ℕ}

pub data Mp3Protection : Type 0 where
  on off : Mp3Protection

unfoldable pub mp3_protection : Mp3Protection → ℕ
mp3_protection on = 0x00
mp3_protection off = 0x01

pub data Mp3Bitrate : Type 0 where
  free k32k k40k k48k k56k k64k k80k k96k k112k k128k k160k k192k k224k k256k k320k : Mp3Bitrate

unfoldable pub mp3_bitrate : Mp3Bitrate → ℕ
mp3_bitrate free = 0x00
mp3_bitrate k32k = 0x01
mp3_bitrate k40k = 0x02
mp3_bitrate k48k = 0x03
mp3_bitrate k56k = 0x04
mp3_bitrate k64k = 0x05
mp3_bitrate k80k = 0x06
mp3_bitrate k96k = 0x07
mp3_bitrate k112k = 0x08
mp3_bitrate k128k = 0x09
mp3_bitrate k160k = 0x0A
mp3_bitrate k192k = 0x0B
mp3_bitrate k224k = 0x0C
mp3_bitrate k256k = 0x0D
mp3_bitrate k320k = 0x0E

pub data Mp3Sampling : Type 0 where
  f44k f48k f32k : Mp3Sampling

unfoldable pub mp3_sampling : Mp3Sampling → ℕ
mp3_sampling f44k = 0x00
mp3_sampling f48k = 0x01
mp3_sampling f32k = 0x02

pub data Mp3Mode : Type 0 where
  stereo joint_stereo dual single : Mp3Mode

unfoldable pub mp3_mode : Mp3Mode → ℕ
mp3_mode stereo = 0x00
mp3_mode joint_stereo = 0x01
mp3_mode dual = 0x02
mp3_mode single = 0x03

pub data Mp3Extension : Type 0 where
  off_off on_off off_on on_on : Mp3Extension

unfoldable pub mp3_extension : Mp3Extension → ℕ
mp3_extension off_off = 0x00
mp3_extension on_off = 0x01
mp3_extension off_on = 0x02
mp3_extension on_on = 0x03
