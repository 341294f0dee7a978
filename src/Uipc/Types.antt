-- ===== src/Uipc/Types.antt =====
-- The types of libbt/include/uipc_msg.h, and the notation for its structures and unions.
use Prim.Native.String.{String}
use myir_bluetooth.Common.{List, [], ◌∷◌}
use myir_bluetooth.Uipc.Layout.{Layout, word, struct, union, Fields, end, field}

abbrev pub u8 : Layout
u8 = word 1

abbrev pub u16 : Layout
u16 = word 2

abbrev pub u32 : Layout
u32 = word 4

-- Two types of `bt_types.h`, which the repository does not have.
pub record BtTypes : Type 0 where
  pub bool_type : Layout
  pub bd_addr : Layout

abbrev pub fields : List (String × Layout) → Fields
fields [] = end
fields ((name, l) ∷ rest) = field name l (fields rest)

abbrev pub packed : List (String × Layout) → Layout
packed fs = struct (fields fs)

abbrev pub one_of : List (String × Layout) → Layout
one_of fs = union (fields fs)
