-- ===== src/Uipc/Slip.antt =====
-- libbt/include/uipc_msg.h, lines 118-142: the state of the H5 transport.
use myir_bluetooth.Common.{ℕ, [], ◌∷◌}
use myir_bluetooth.Uipc.Layout.{Layout}
use myir_bluetooth.Uipc.Types.{u8, u16, BtTypes, packed}

pub data SlipOpcode : Type 0 where
  to_lite_req to_lite_resp to_full_req to_full_resp notify : SlipOpcode

unfoldable pub slip_opcode : SlipOpcode → ℕ
slip_opcode to_lite_req = 0
slip_opcode to_lite_resp = 1
slip_opcode to_full_req = 2
slip_opcode to_full_resp = 3
slip_opcode notify = 4

pub data SlipStatus : Type 0 where
  success failure : SlipStatus

unfoldable pub slip_status : SlipStatus → ℕ
slip_status success = 0
slip_status failure = 1

abbrev pub slip_sync_info : BtTypes → Layout
slip_sync_info types = packed (
    ("op_code", u8)
    ∷ ("status", u8)
    ∷ ("acl_pkt_size", u16)
    ∷ ("state", u8)
    ∷ ("lp_state", u8)
    ∷ ("next_seqno", u8)
    ∷ ("ack", u8)
    ∷ ("sent_ack", u8)
    ∷ ("sliding_window_size", u8)
    ∷ ("oof_flow_control", types.bool_type)
    ∷ ("data_integrity_type", types.bool_type)
    ∷ ("rx_state", u8)
    ∷ [])
