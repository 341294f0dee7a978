-- ===== src/Uipc/Messages/Opcodes.antt =====
-- The opcodes of libbt/include/uipc_msg.h, and the lengths of the management messages.
use myir_bluetooth.Common.{
  ℕ, ◌≤◌, ◌≡◌, refl, sym, ap, ◌∙◌, arith, Option, none, some, List, [], ◌∷◌, ◌==◌, if◌then◌else◌,
  length,
}
use myir_bluetooth.Uipc.Layout.{Order, Value, Fits, image, size_of, Layout}
use myir_bluetooth.Uipc.Layout.Offsets.{length-image_value}
use myir_bluetooth.Uipc.Management.{
  UipcOpcode, uipc_opcode, open_req, open_rsp, close_req, close_rsp, uipc_open_req, uipc_open_rsp,
  uipc_close_req, uipc_close_rsp, uipc_open_req_msglen, uipc_open_rsp_msglen, uipc_close_req_msglen,
  uipc_close_rsp_msglen, uipc_mgmt_msg_maxlen,
}
use myir_bluetooth.Uipc.Slip.{SlipOpcode, slip_opcode}
use myir_bluetooth.Uipc.L2cap.{L2cOpcode, l2c_opcode}
use myir_bluetooth.Uipc.Avdtp.{AvdtOpcode, avdt_opcode}
use myir_bluetooth.Uipc.Streams.{AudioOpcode, audio_opcode}

-- The structure of a management message, and the length that the header gives for it.
abbrev pub management : UipcOpcode → Layout
management open_req = uipc_open_req
management open_rsp = uipc_open_rsp
management close_req = uipc_close_req
management close_rsp = uipc_close_rsp

abbrev pub msglen : UipcOpcode → ℕ
msglen open_req = uipc_open_req_msglen
msglen open_rsp = uipc_open_rsp_msglen
msglen close_req = uipc_close_req_msglen
msglen close_rsp = uipc_close_rsp_msglen

size_of-management :
    (m : UipcOpcode) → (size_of (management m) ≡ msglen m) × (msglen m ≤ uipc_mgmt_msg_maxlen)
unfolding size_of uipc_mgmt_msg_maxlen
size_of-management open_req = (refl, omega arith)
size_of-management open_rsp = (refl, omega arith)
size_of-management close_req = (refl, omega arith)
size_of-management close_rsp = (refl, omega arith)

-- A management message takes as many bytes as its MSGLEN constant says, and no more than
-- UIPC_MGMT_MSG_MAXLEN.
pub length-msglen :
    (o : Order) (m : UipcOpcode) (x : Value (management m))
    → Fits (management m) x
    → (length (image o (management m) x) ≡ msglen m) × (msglen m ≤ uipc_mgmt_msg_maxlen)
length-msglen o m x h =
    let (sized, small) = size_of-management m in
    (omega (arith, length-image_value o (management m) x h, sized), small)

-- An opcode of one of the five services.
pub data Opcode : Type 0 where
  uipc : UipcOpcode → Opcode
  slip : SlipOpcode → Opcode
  l2c : L2cOpcode → Opcode
  avdt : AvdtOpcode → Opcode
  audio : AudioOpcode → Opcode

abbrev pub service : Opcode → ℕ
service (uipc _) = 0
service (slip _) = 1
service (l2c _) = 2
service (avdt _) = 3
service (audio _) = 4

abbrev pub code : Opcode → ℕ
code (uipc m) = uipc_opcode m
code (slip m) = slip_opcode m
code (l2c m) = l2c_opcode m
code (avdt m) = avdt_opcode m
code (audio m) = audio_opcode m

-- The first of the listed messages that has the code.
module _ {A : Type 0} (f : A → ℕ) where
  find : List A → ℕ → Option A
  find [] n = none
  find (m ∷ ms) n = if f m == n then some m else find ms n

all_uipc : List UipcOpcode
all_uipc =
    UipcOpcode.open_req ∷ UipcOpcode.open_rsp ∷ UipcOpcode.close_req ∷ UipcOpcode.close_rsp ∷ []

find-uipc : (m : UipcOpcode) → find uipc_opcode all_uipc (uipc_opcode m) ≡ some m
unfolding find uipc_opcode all_uipc
find-uipc UipcOpcode.open_req = refl
find-uipc UipcOpcode.open_rsp = refl
find-uipc UipcOpcode.close_req = refl
find-uipc UipcOpcode.close_rsp = refl

all_slip : List SlipOpcode
all_slip =
    SlipOpcode.to_lite_req ∷ SlipOpcode.to_lite_resp ∷ SlipOpcode.to_full_req
    ∷ SlipOpcode.to_full_resp ∷ SlipOpcode.notify ∷ []

find-slip : (m : SlipOpcode) → find slip_opcode all_slip (slip_opcode m) ≡ some m
unfolding find slip_opcode all_slip
find-slip SlipOpcode.to_lite_req = refl
find-slip SlipOpcode.to_lite_resp = refl
find-slip SlipOpcode.to_full_req = refl
find-slip SlipOpcode.to_full_resp = refl
find-slip SlipOpcode.notify = refl

all_l2c : List L2cOpcode
all_l2c =
    L2cOpcode.sync_to_lite_req ∷ L2cOpcode.sync_to_lite_resp ∷ L2cOpcode.remove_to_lite_req
    ∷ L2cOpcode.remove_to_lite_resp ∷ L2cOpcode.flush_to_full_ind ∷ []

find-l2c : (m : L2cOpcode) → find l2c_opcode all_l2c (l2c_opcode m) ≡ some m
unfolding find l2c_opcode all_l2c
find-l2c L2cOpcode.sync_to_lite_req = refl
find-l2c L2cOpcode.sync_to_lite_resp = refl
find-l2c L2cOpcode.remove_to_lite_req = refl
find-l2c L2cOpcode.remove_to_lite_resp = refl
find-l2c L2cOpcode.flush_to_full_ind = refl

all_avdt : List AvdtOpcode
all_avdt =
    AvdtOpcode.sync_to_lite_req ∷ AvdtOpcode.sync_to_lite_resp ∷ AvdtOpcode.resync_to_lite_req
    ∷ AvdtOpcode.resync_to_lite_resp ∷ AvdtOpcode.sync_to_full_req ∷ AvdtOpcode.sync_to_full_resp
    ∷ AvdtOpcode.remove_to_lite_req ∷ AvdtOpcode.remove_to_lite_resp
    ∷ AvdtOpcode.sync_to_btc_lite_req ∷ AvdtOpcode.sync_to_btc_lite_resp ∷ []

find-avdt : (m : AvdtOpcode) → find avdt_opcode all_avdt (avdt_opcode m) ≡ some m
unfolding find avdt_opcode all_avdt
find-avdt AvdtOpcode.sync_to_lite_req = refl
find-avdt AvdtOpcode.sync_to_lite_resp = refl
find-avdt AvdtOpcode.resync_to_lite_req = refl
find-avdt AvdtOpcode.resync_to_lite_resp = refl
find-avdt AvdtOpcode.sync_to_full_req = refl
find-avdt AvdtOpcode.sync_to_full_resp = refl
find-avdt AvdtOpcode.remove_to_lite_req = refl
find-avdt AvdtOpcode.remove_to_lite_resp = refl
find-avdt AvdtOpcode.sync_to_btc_lite_req = refl
find-avdt AvdtOpcode.sync_to_btc_lite_resp = refl

all_audio : List AudioOpcode
all_audio =
    AudioOpcode.bta_av_sync_to_lite_req ∷ AudioOpcode.bta_av_sync_to_lite_resp
    ∷ AudioOpcode.bta_av_str_start_to_lite_req ∷ AudioOpcode.bta_av_str_start_to_lite_resp
    ∷ AudioOpcode.bta_av_str_stop_to_lite_req ∷ AudioOpcode.bta_av_str_stop_to_lite_resp
    ∷ AudioOpcode.bta_av_str_cleanup_to_lite_req ∷ AudioOpcode.bta_av_str_cleanup_to_lite_resp
    ∷ AudioOpcode.bta_av_str_suspend_to_lite_req ∷ AudioOpcode.bta_av_str_suspend_to_lite_resp
    ∷ AudioOpcode.bta_av_sync_error_resp ∷ AudioOpcode.a2dp_start_req ∷ AudioOpcode.a2dp_start_resp
    ∷ AudioOpcode.a2dp_stop_req ∷ AudioOpcode.a2dp_stop_resp ∷ AudioOpcode.a2dp_cleanup_req
    ∷ AudioOpcode.a2dp_cleanup_resp ∷ AudioOpcode.a2dp_suspend_req ∷ AudioOpcode.a2dp_suspend_resp
    ∷ AudioOpcode.a2dp_jitter_done_ind ∷ AudioOpcode.audio_codec_config_req
    ∷ AudioOpcode.audio_codec_config_resp ∷ AudioOpcode.audio_codec_set_bitrate_req
    ∷ AudioOpcode.audio_codec_flush_req ∷ AudioOpcode.audio_route_config_req
    ∷ AudioOpcode.audio_route_config_resp ∷ AudioOpcode.audio_mix_config_req
    ∷ AudioOpcode.audio_mix_config_resp ∷ AudioOpcode.audio_burst_frames_ind
    ∷ AudioOpcode.audio_burst_end_ind ∷ AudioOpcode.audio_eq_mode_config_req
    ∷ AudioOpcode.audio_scale_config_req ∷ AudioOpcode.audio_sub_route_req
    ∷ AudioOpcode.audio_sub_route_resp ∷ []

find-audio : (m : AudioOpcode) → find audio_opcode all_audio (audio_opcode m) ≡ some m
unfolding find audio_opcode all_audio
find-audio AudioOpcode.bta_av_sync_to_lite_req = refl
find-audio AudioOpcode.bta_av_sync_to_lite_resp = refl
find-audio AudioOpcode.bta_av_str_start_to_lite_req = refl
find-audio AudioOpcode.bta_av_str_start_to_lite_resp = refl
find-audio AudioOpcode.bta_av_str_stop_to_lite_req = refl
find-audio AudioOpcode.bta_av_str_stop_to_lite_resp = refl
find-audio AudioOpcode.bta_av_str_cleanup_to_lite_req = refl
find-audio AudioOpcode.bta_av_str_cleanup_to_lite_resp = refl
find-audio AudioOpcode.bta_av_str_suspend_to_lite_req = refl
find-audio AudioOpcode.bta_av_str_suspend_to_lite_resp = refl
find-audio AudioOpcode.bta_av_sync_error_resp = refl
find-audio AudioOpcode.a2dp_start_req = refl
find-audio AudioOpcode.a2dp_start_resp = refl
find-audio AudioOpcode.a2dp_stop_req = refl
find-audio AudioOpcode.a2dp_stop_resp = refl
find-audio AudioOpcode.a2dp_cleanup_req = refl
find-audio AudioOpcode.a2dp_cleanup_resp = refl
find-audio AudioOpcode.a2dp_suspend_req = refl
find-audio AudioOpcode.a2dp_suspend_resp = refl
find-audio AudioOpcode.a2dp_jitter_done_ind = refl
find-audio AudioOpcode.audio_codec_config_req = refl
find-audio AudioOpcode.audio_codec_config_resp = refl
find-audio AudioOpcode.audio_codec_set_bitrate_req = refl
find-audio AudioOpcode.audio_codec_flush_req = refl
find-audio AudioOpcode.audio_route_config_req = refl
find-audio AudioOpcode.audio_route_config_resp = refl
find-audio AudioOpcode.audio_mix_config_req = refl
find-audio AudioOpcode.audio_mix_config_resp = refl
find-audio AudioOpcode.audio_burst_frames_ind = refl
find-audio AudioOpcode.audio_burst_end_ind = refl
find-audio AudioOpcode.audio_eq_mode_config_req = refl
find-audio AudioOpcode.audio_scale_config_req = refl
find-audio AudioOpcode.audio_sub_route_req = refl
find-audio AudioOpcode.audio_sub_route_resp = refl

module _ {A : Type 0} (f : A → ℕ) (ms : List A) (found : (m : A) → find f ms (f m) ≡ some m) where
  find-injective : (m n : A) → f m ≡ f n → m ≡ n
  find-injective m n e =
      let same : some m ≡ some n = sym (found m) ∙ ap (find f ms) e ∙ found n in cc

-- Two messages of one service that have the same opcode are the same message.
pub code-injective : (m n : Opcode) → service m ≡ service n → code m ≡ code n → m ≡ n
code-injective (uipc m) (uipc n) s e = ap uipc (find-injective uipc_opcode all_uipc find-uipc m n e)
code-injective (slip m) (slip n) s e = ap slip (find-injective slip_opcode all_slip find-slip m n e)
code-injective (l2c m) (l2c n) s e = ap l2c (find-injective l2c_opcode all_l2c find-l2c m n e)
code-injective (avdt m) (avdt n) s e = ap avdt (find-injective avdt_opcode all_avdt find-avdt m n e)
code-injective (audio m) (audio n) s e =
    ap audio (find-injective audio_opcode all_audio find-audio m n e)
code-injective _ _ s e = absurd (omega (arith, s))
