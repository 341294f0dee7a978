-- ===== src/Uipc/Management.antt =====
-- libbt/include/uipc_msg.h, lines 33-109: opening and closing, and the log.
use myir_bluetooth.Common.{ℕ, ◌+◌, [], ◌∷◌}
use myir_bluetooth.Uipc.Layout.{Layout, array, size_of}
use myir_bluetooth.Uipc.Types.{u8, u16, u32, packed, one_of}

pub data UipcStatus : Type 0 where
  success fail : UipcStatus

unfoldable pub uipc_status : UipcStatus → ℕ
uipc_status success = 0
uipc_status fail = 1

abbrev pub uipc_status_type : Layout
uipc_status_type = u8

abbrev pub uipc_version_major : ℕ
uipc_version_major = 0x0001

abbrev pub uipc_version_minor : ℕ
uipc_version_minor = 0x0000

pub data UipcOpcode : Type 0 where
  open_req open_rsp close_req close_rsp : UipcOpcode

unfoldable pub uipc_opcode : UipcOpcode → ℕ
uipc_opcode open_req = 0x00
uipc_opcode open_rsp = 0x01
uipc_opcode close_req = 0x02
uipc_opcode close_rsp = 0x03

abbrev pub uipc_open_req : Layout
uipc_open_req = packed (("opcode", u8) ∷ [])

abbrev pub uipc_open_req_msglen : ℕ
uipc_open_req_msglen = 1

abbrev pub uipc_open_rsp : Layout
uipc_open_rsp = packed (
    ("opcode", u8)
    ∷ ("status", uipc_status_type)
    ∷ ("version_major", u16)
    ∷ ("version_minor", u16)
    ∷ ("num_streams", u8)
    ∷ [])

abbrev pub uipc_open_rsp_msglen : ℕ
uipc_open_rsp_msglen = 7

abbrev pub uipc_close_req : Layout
uipc_close_req = packed (("opcode", u8) ∷ [])

abbrev pub uipc_close_req_msglen : ℕ
uipc_close_req_msglen = 1

abbrev pub uipc_close_rsp : Layout
uipc_close_rsp = packed (("opcode", u8) ∷ [])

abbrev pub uipc_close_rsp_msglen : ℕ
uipc_close_rsp_msglen = 1

abbrev pub uipc_msg : Layout
uipc_msg = one_of (
    ("opcode", u8)
    ∷ ("open_req", uipc_open_req)
    ∷ ("open_resp", uipc_open_rsp)
    ∷ ("close_req", uipc_close_req)
    ∷ [])

unfoldable pub uipc_mgmt_msg_maxlen : ℕ
unfolding size_of
uipc_mgmt_msg_maxlen = size_of uipc_msg

abbrev pub ipc_log_msg_len : ℕ
ipc_log_msg_len = 100

abbrev pub uipc_log_msg : Layout
uipc_log_msg = packed (("trace_set_mask", u32) ∷ ("msg", array ipc_log_msg_len u8) ∷ [])

abbrev pub uipc_log_msglen : ℕ
uipc_log_msglen = ipc_log_msg_len + 4
