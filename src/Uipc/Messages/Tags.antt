-- ===== src/Uipc/Messages/Tags.antt =====
-- The message unions of libbt/include/uipc_msg.h: the opcode is read whichever member was stored.
use myir_bluetooth.Common.{ℕ, zero, suc, ◌+◌, ◌<◌, ◌≡◌, refl, arith, some, Bytes, length, drop}
use myir_bluetooth.Uipc.Layout.{Order, Value, Fits, image, read, layout_at, largest}
use myir_bluetooth.Uipc.Layout.Unions.{Byte, tag, count, store, length-store, read-store, read-tag}
use myir_bluetooth.Uipc.Types.{BtTypes, u8}
use myir_bluetooth.Uipc.Messages.{Service, uipc_management, l2c_sync, avdt_sync, members}

-- Each member begins with a byte of its own.
member_tag :
    (types : BtTypes) (u : Service) (i : ℕ) (x : Value (layout_at (members types u) i))
    → i < count (members types u)
    → (c : Byte) × (tag (layout_at (members types u) i) x ≡ some c)
unfolding Value tag
member_tag types uipc_management zero x h = (x, refl)
member_tag types uipc_management (suc zero) x h = (x.0, refl)
member_tag types uipc_management (suc (suc zero)) x h = (x.0, refl)
member_tag types uipc_management (suc (suc (suc zero))) x h = (x.0, refl)
member_tag types uipc_management (suc (suc (suc (suc i)))) x h = absurd (omega (arith, h))
member_tag types l2c_sync zero x h = (x, refl)
member_tag types l2c_sync (suc zero) x h = (x.0, refl)
member_tag types l2c_sync (suc (suc zero)) x h = (x.0, refl)
member_tag types l2c_sync (suc (suc (suc zero))) x h = (x.0, refl)
member_tag types l2c_sync (suc (suc (suc (suc zero)))) x h = (x.0, refl)
member_tag types l2c_sync (suc (suc (suc (suc (suc zero))))) x h = (x.0, refl)
member_tag types l2c_sync (suc (suc (suc (suc (suc (suc i)))))) x h = absurd (omega (arith, h))
member_tag types avdt_sync zero x h = (x, refl)
member_tag types avdt_sync (suc zero) x h = (x.0, refl)
member_tag types avdt_sync (suc (suc zero)) x h = (x.0, refl)
member_tag types avdt_sync (suc (suc (suc zero))) x h = (x.0, refl)
member_tag types avdt_sync (suc (suc (suc (suc i)))) x h = absurd (omega (arith, h))

module _ (types : BtTypes) (o : Order) (u : Service) (i : ℕ)
    (x : Value (layout_at (members types u) i)) (old : Bytes) (h : i < count (members types u))
    (fits : Fits (layout_at (members types u) i) x)
    (sized : length old ≡ largest (members types u)) where
  -- A message that is assigned to its member of the union of its service leaves the size_of of the
  -- union as it was, is read back from that member, and its first byte is what the member
  -- `opcode` of the union reads.
  pub store-opcode :
      (c : Byte) × (tag (layout_at (members types u) i) x ≡ some c)
      × (length (store o (members types u) i x old) ≡ largest (members types u))
      × ((more : Bytes) × (read o
              (layout_at (members types u) i)
              (store o (members types u) i x old)
            ≡ some (x, more)))
      × ((more : Bytes) × (read o u8 (store o (members types u) i x old) ≡ some (c, more)))
  store-opcode =
      let (c, tagged) = member_tag types u i x h in
      (
        c,
        tagged,
        length-store o (members types u) i x old fits sized,
        (
          drop (0 + length (image o (layout_at (members types u) i) x)) old,
          read-store o (members types u) i x old fits,
        ),
        read-tag o (members types u) i x old fits tagged,
      )
