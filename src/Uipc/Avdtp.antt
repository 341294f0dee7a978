-- ===== src/Uipc/Avdtp.antt =====
-- libbt/include/uipc_msg.h, lines 228-287: the AVDTP streams.
use myir_bluetooth.Common.{ℕ, [], ◌∷◌}
use myir_bluetooth.Uipc.Layout.{Layout}
use myir_bluetooth.Uipc.Types.{u8, u16, u32, BtTypes, packed, one_of}

pub data AvdtOpcode : Type 0 where
  sync_to_lite_req sync_to_lite_resp resync_to_lite_req resync_to_lite_resp sync_to_full_req
        sync_to_full_resp remove_to_lite_req remove_to_lite_resp sync_to_btc_lite_req
        sync_to_btc_lite_resp :
      AvdtOpcode

unfoldable pub avdt_opcode : AvdtOpcode → ℕ
avdt_opcode sync_to_lite_req = 0
avdt_opcode sync_to_lite_resp = 1
avdt_opcode resync_to_lite_req = 2
avdt_opcode resync_to_lite_resp = 3
avdt_opcode sync_to_full_req = 4
avdt_opcode sync_to_full_resp = 5
avdt_opcode remove_to_lite_req = 6
avdt_opcode remove_to_lite_resp = 7
avdt_opcode sync_to_btc_lite_req = 8
avdt_opcode sync_to_btc_lite_resp = 9

pub data AvdtStatus : Type 0 where
  success failure : AvdtStatus

unfoldable pub avdt_status : AvdtStatus → ℕ
avdt_status success = 0
avdt_status failure = 1

abbrev pub avdt_sync_to_btc_lite_req_stream : Layout
avdt_sync_to_btc_lite_req_stream = packed (("lcid", u16) ∷ ("ssrc", u32) ∷ [])

abbrev pub avdt_sync_to_btc_lite_req : Layout
avdt_sync_to_btc_lite_req =
    packed (("opcode", u8) ∷ ("num_stream", u8) ∷ ("stream", avdt_sync_to_btc_lite_req_stream) ∷ [])

abbrev pub avdt_sync_to_btc_lite_resp : Layout
avdt_sync_to_btc_lite_resp = packed (("opcode", u8) ∷ ("status", u8) ∷ [])

abbrev pub avdt_scb_sync_info : BtTypes → Layout
avdt_scb_sync_info types = packed (
    ("handle", u8)
    ∷ ("peer_addr", types.bd_addr)
    ∷ ("local_cid", u16)
    ∷ ("peer_mtu", u16)
    ∷ ("mux_tsid_media", u8)
    ∷ ("media_seq", u16)
    ∷ [])

abbrev pub avdt_sync_info : BtTypes → Layout
avdt_sync_info types =
    packed (("op_code", u8) ∷ ("status", u8) ∷ ("scb_info", (avdt_scb_sync_info types)) ∷ [])

abbrev pub avdt_sync_msg : BtTypes → Layout
avdt_sync_msg types = one_of (
    ("op_code", u8)
    ∷ ("sync_info", (avdt_sync_info types))
    ∷ ("btc_sync_req", avdt_sync_to_btc_lite_req)
    ∷ ("btc_sync_resp", avdt_sync_to_btc_lite_resp)
    ∷ [])
