-- ===== src/Tests/Messages.antt =====
-- The messages of libbt/include/uipc_msg.h: an answer to an open request, in both byte orders.
use myir_bluetooth.Common.{◌≤◌, ◌≡◌, refl, arith, some, [], ◌∷◌, Bytes, length}
use myir_bluetooth.Uipc.Layout.{little, array, Value, Values, Fits, image, read, largest, layout_at}
use myir_bluetooth.Uipc.Layout.Unions.{Byte, tag, store}
use myir_bluetooth.Uipc.Management.{UipcOpcode, uipc_mgmt_msg_maxlen}
use myir_bluetooth.Uipc.Messages.{Structure, fields_of, layout, uipc_management, members}
use myir_bluetooth.Uipc.Messages.Opcodes.{management, msglen, length-msglen, audio, code-injective}
use myir_bluetooth.Uipc.Messages.Tags.{store-opcode}
use myir_bluetooth.Uipc.Streams.{AudioOpcode}
use myir_bluetooth.Uipc.Types.{BtTypes, u8}

abbrev types : BtTypes
types = record { bool_type = u8; bd_addr = array 6 u8 }

-- UIPC_OPEN_RSP, success, version 1.0, three streams.
abbrev open_rsp : Values (fields_of types Structure.uipc_open_rsp)
unfolding Value
open_rsp = (1, (0, (1, (0, (3, tt)))))

abbrev answer : Value (layout types Structure.uipc_open_rsp)
unfolding Value
answer = open_rsp

abbrev answer_bytes : Bytes
answer_bytes = 1 ∷ 0 ∷ 1 ∷ 0 ∷ 0 ∷ 0 ∷ 3 ∷ []

answer-image : image little (layout types Structure.uipc_open_rsp) answer ≡ answer_bytes
unfolding image Value
answer-image = refl

abbrev old : Bytes
old = 7 ∷ 7 ∷ 7 ∷ 7 ∷ 7 ∷ 7 ∷ 7 ∷ []

store-opcode_example :
    (c : Byte) × (tag (layout_at (members types uipc_management) 2) answer ≡ some c)
    × (length (store little (members types uipc_management) 2 answer old)
        ≡ largest (members types uipc_management))
    × ((more : Bytes) × (read little
            (layout_at (members types uipc_management) 2)
            (store little (members types uipc_management) 2 answer old)
          ≡ some (answer, more)))
    × ((more : Bytes) × (read little u8 (store little (members types uipc_management) 2 answer old)
          ≡ some (c, more)))
unfolding Fits Value largest
store-opcode_example =
    store-opcode types little uipc_management 2 answer old (omega arith) (omega arith) refl

length-msglen_example :
    (length (image little (management UipcOpcode.open_rsp) answer) ≡ msglen UipcOpcode.open_rsp)
    × (msglen UipcOpcode.open_rsp ≤ uipc_mgmt_msg_maxlen)
unfolding Fits Value
length-msglen_example = length-msglen little UipcOpcode.open_rsp answer (omega arith)

code-injective_example :
    audio AudioOpcode.a2dp_jitter_done_ind ≡ audio AudioOpcode.a2dp_jitter_done_ind
code-injective_example =
    code-injective (audio AudioOpcode.a2dp_jitter_done_ind) (audio AudioOpcode.a2dp_jitter_done_ind)
      refl refl
