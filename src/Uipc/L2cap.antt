-- ===== src/Uipc/L2cap.antt =====
-- libbt/include/uipc_msg.h, lines 151-219: the L2CAP channels of the light stack.
use myir_bluetooth.Common.{ℕ, [], ◌∷◌}
use myir_bluetooth.Uipc.Layout.{Layout}
use myir_bluetooth.Uipc.Types.{u8, u16, BtTypes, packed, one_of}

pub data L2cOpcode : Type 0 where
  sync_to_lite_req sync_to_lite_resp remove_to_lite_req remove_to_lite_resp flush_to_full_ind :
      L2cOpcode

unfoldable pub l2c_opcode : L2cOpcode → ℕ
l2c_opcode sync_to_lite_req = 0
l2c_opcode sync_to_lite_resp = 1
l2c_opcode remove_to_lite_req = 2
l2c_opcode remove_to_lite_resp = 3
l2c_opcode flush_to_full_ind = 4

pub data L2cStatus : Type 0 where
  success failure : L2cStatus

unfoldable pub l2c_status : L2cStatus → ℕ
l2c_status success = 0
l2c_status failure = 1

abbrev pub l2c_stream_info : BtTypes → Layout
l2c_stream_info types = packed (
    ("local_cid", u16)
    ∷ ("remote_cid", u16)
    ∷ ("out_mtu", u16)
    ∷ ("handle", u16)
    ∷ ("link_xmit_quota", u16)
    ∷ ("is_flushable", types.bool_type)
    ∷ [])

abbrev pub l2c_sync_to_lite_req : BtTypes → Layout
l2c_sync_to_lite_req types = packed (
    ("op_code", u8)
    ∷ ("light_xmit_quota", u16)
    ∷ ("acl_data_size", u16)
    ∷ ("non_flushable_pbf", u16)
    ∷ ("multi_av_data_cong_start", u8)
    ∷ ("multi_av_data_cong_end", u8)
    ∷ ("multi_av_data_cong_discard", u8)
    ∷ ("num_stream", u8)
    ∷ ("stream", (l2c_stream_info types))
    ∷ [])

abbrev pub l2c_sync_to_lite_resp_stream : Layout
l2c_sync_to_lite_resp_stream = packed (("lcid", u16) ∷ ("status", u8) ∷ [])

abbrev pub l2c_sync_to_lite_resp : Layout
l2c_sync_to_lite_resp = packed (
    ("op_code", u8)
    ∷ ("light_xmit_unacked", u16)
    ∷ ("num_stream", u8)
    ∷ ("stream", l2c_sync_to_lite_resp_stream)
    ∷ [])

abbrev pub l2c_remove_to_lite_req : Layout
l2c_remove_to_lite_req =
    packed (("op_code", u8) ∷ ("light_xmit_quota", u16) ∷ ("num_stream", u8) ∷ ("lcid", u16) ∷ [])

abbrev pub l2c_remove_to_lite_resp : Layout
l2c_remove_to_lite_resp = l2c_sync_to_lite_resp

abbrev pub l2c_flush_to_full_ind : Layout
l2c_flush_to_full_ind = l2c_remove_to_lite_req

abbrev pub l2c_sync_msg : BtTypes → Layout
l2c_sync_msg types = one_of (
    ("op_code", u8)
    ∷ ("sync_req", (l2c_sync_to_lite_req types))
    ∷ ("sync_resp", l2c_sync_to_lite_resp)
    ∷ ("remove_req", l2c_remove_to_lite_req)
    ∷ ("remove_resp", l2c_remove_to_lite_resp)
    ∷ ("flush_ind", l2c_flush_to_full_ind)
    ∷ [])
