-- ===== src/Uipc/Codecs/Mpeg.antt =====
-- libbt/include/uipc_msg.h, lines 409-412: the versions of MPEG audio.
use myir_bluetooth.Common.{ℕ}

pub data MpegVersion : Type 0 where
  mp25 reserve mp2 mp3 : MpegVersion

unfoldable pub mpeg_version : MpegVersion → ℕ
mpeg_version mp25 = 0x00
mpeg_version reserve = 0x01
mpeg_version mp2 = 0x02
mpeg_version mp3 = 0x03
