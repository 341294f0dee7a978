-- ===== src/Uipc/Messages.antt =====
-- libbt/include/uipc_msg.h: all structures and unions, and the three unions of messages.
pub mod Access
pub mod Tags
pub mod Opcodes
pub mod Settings
use myir_bluetooth.Uipc.Layout.{Layout, Fields, end, word, array, struct, union}
use myir_bluetooth.Uipc.Types.{BtTypes}
use myir_bluetooth.Uipc.Management
use myir_bluetooth.Uipc.Slip
use myir_bluetooth.Uipc.L2cap
use myir_bluetooth.Uipc.Avdtp
use myir_bluetooth.Uipc.Streams
use myir_bluetooth.Uipc.Codecs
use myir_bluetooth.Uipc.Mixer

-- The fields of a structure, or the members of a union.
abbrev pub parts : Layout → Fields
parts (word n) = end
parts (array n l) = end
parts (struct fs) = fs
parts (union fs) = fs

pub data Structure : Type 0 where
  uipc_open_req uipc_open_rsp uipc_close_req uipc_close_rsp uipc_log_msg slip_sync_info
        l2c_stream_info l2c_sync_to_lite_req l2c_sync_to_lite_resp_stream l2c_sync_to_lite_resp
        l2c_remove_to_lite_req l2c_remove_to_lite_resp l2c_flush_to_full_ind
        avdt_sync_to_btc_lite_req_stream avdt_sync_to_btc_lite_req avdt_sync_to_btc_lite_resp
        avdt_scb_sync_info avdt_sync_info start_req stop_req suspend_req cleanup_req
        a2dp_generic_resp codec_info_sbc codec_info_mp3 codec_info_mp2 codec_info_mp2_5
        codec_info_aac codec_config_req codec_config_resp codec_set_bitrate_req codec_flush_req
        route_config_req route_config_resp chirp_config mix_scale_config eq_gain_config
        mix_config_req mix_config_resp burst_frames_ind burst_end_ind eq_mode_config_req
        scale_config_req :
      Structure

abbrev pub fields_of : BtTypes → Structure → Fields
fields_of types uipc_open_req = parts Management.uipc_open_req
fields_of types uipc_open_rsp = parts Management.uipc_open_rsp
fields_of types uipc_close_req = parts Management.uipc_close_req
fields_of types uipc_close_rsp = parts Management.uipc_close_rsp
fields_of types uipc_log_msg = parts Management.uipc_log_msg
fields_of types slip_sync_info = parts (Slip.slip_sync_info types)
fields_of types l2c_stream_info = parts (L2cap.l2c_stream_info types)
fields_of types l2c_sync_to_lite_req = parts (L2cap.l2c_sync_to_lite_req types)
fields_of types l2c_sync_to_lite_resp_stream = parts L2cap.l2c_sync_to_lite_resp_stream
fields_of types l2c_sync_to_lite_resp = parts L2cap.l2c_sync_to_lite_resp
fields_of types l2c_remove_to_lite_req = parts L2cap.l2c_remove_to_lite_req
fields_of types l2c_remove_to_lite_resp = parts L2cap.l2c_remove_to_lite_resp
fields_of types l2c_flush_to_full_ind = parts L2cap.l2c_flush_to_full_ind
fields_of types avdt_sync_to_btc_lite_req_stream = parts Avdtp.avdt_sync_to_btc_lite_req_stream
fields_of types avdt_sync_to_btc_lite_req = parts Avdtp.avdt_sync_to_btc_lite_req
fields_of types avdt_sync_to_btc_lite_resp = parts Avdtp.avdt_sync_to_btc_lite_resp
fields_of types avdt_scb_sync_info = parts (Avdtp.avdt_scb_sync_info types)
fields_of types avdt_sync_info = parts (Avdtp.avdt_sync_info types)
fields_of types start_req = parts Streams.start_req
fields_of types stop_req = parts Streams.stop_req
fields_of types suspend_req = parts Streams.suspend_req
fields_of types cleanup_req = parts Streams.cleanup_req
fields_of types a2dp_generic_resp = parts Streams.a2dp_generic_resp
fields_of types codec_info_sbc = parts Codecs.codec_info_sbc
fields_of types codec_info_mp3 = parts Codecs.codec_info_mp3
fields_of types codec_info_mp2 = parts Codecs.codec_info_mp2
fields_of types codec_info_mp2_5 = parts Codecs.codec_info_mp2_5
fields_of types codec_info_aac = parts Codecs.codec_info_aac
fields_of types codec_config_req = parts Codecs.codec_config_req
fields_of types codec_config_resp = parts Codecs.codec_config_resp
fields_of types codec_set_bitrate_req = parts Codecs.codec_set_bitrate_req
fields_of types codec_flush_req = parts Codecs.codec_flush_req
fields_of types route_config_req = parts Mixer.route_config_req
fields_of types route_config_resp = parts Mixer.route_config_resp
fields_of types chirp_config = parts Mixer.chirp_config
fields_of types mix_scale_config = parts Mixer.mix_scale_config
fields_of types eq_gain_config = parts Mixer.eq_gain_config
fields_of types mix_config_req = parts Mixer.mix_config_req
fields_of types mix_config_resp = parts Mixer.mix_config_resp
fields_of types burst_frames_ind = parts Mixer.burst_frames_ind
fields_of types burst_end_ind = parts Mixer.burst_end_ind
fields_of types eq_mode_config_req = parts Mixer.eq_mode_config_req
fields_of types scale_config_req = parts Mixer.scale_config_req

abbrev pub layout : BtTypes → Structure → Layout
layout types s = struct (fields_of types s)

-- The unions whose members are the messages of one service, each with the opcode first.
pub data Service : Type 0 where
  uipc_management l2c_sync avdt_sync : Service

abbrev pub members : BtTypes → Service → Fields
members types uipc_management = parts Management.uipc_msg
members types l2c_sync = parts (L2cap.l2c_sync_msg types)
members types avdt_sync = parts (Avdtp.avdt_sync_msg types)
