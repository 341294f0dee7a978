-- ===== src/Uipc/Messages/Access.antt =====
-- The structures of libbt/include/uipc_msg.h in memory: whole, and field by field.
use myir_bluetooth.Common.{ℕ, ◌≡◌, some, ◌++◌, Bytes, length, drop, All}
use myir_bluetooth.Uipc.Layout.{
  Order, IsByte, Value, Values, Fits, FitFields, image, image_fields, read, size_of, offset_at,
  layout_at, value_at, set_at, poke,
}
use myir_bluetooth.Uipc.Layout.Memory.{read-image_value}
use myir_bluetooth.Uipc.Layout.Typing.{read-Splits_value}
use myir_bluetooth.Uipc.Layout.Offsets.{
  length-image_value, later, read-offset_fields, poke-offset_fields,
}
use myir_bluetooth.Uipc.Types.{BtTypes}
use myir_bluetooth.Uipc.Messages.{Structure, fields_of, layout}

module _ (types : BtTypes) (o : Order) (s : Structure) where
  -- A structure whose numbers are in the range of their types fills `sizeof` bytes, and
  -- is read back from them, in both byte orders, with the memory behind it.
  pub read-image :
      (x : Value (layout types s)) (rest : Bytes)
      → Fits (layout types s) x
      → (length (image o (layout types s) x) ≡ size_of (layout types s))
        × (read o (layout types s) (image o (layout types s) x ++ rest) ≡ some (x, rest))
  read-image x rest h =
      (length-image_value o (layout types s) x h, read-image_value o (layout types s) x h rest)

  -- What is read from memory as a structure has its numbers in the range of their types,
  -- and the memory is its image and the bytes that are left.
  pub read-IsTyped :
      (bs : Bytes) {x : Value (layout types s)} {rest : Bytes}
      → All IsByte bs
      → read o (layout types s) bs ≡ some (x, rest)
      → Fits (layout types s) x × (image o (layout types s) x ++ rest ≡ bs)
  read-IsTyped bs {x = x} {rest = rest} bytes h =
      let (fit, whole, tail) = read-Splits_value o (layout types s) bs {p = (x, rest)} bytes h in
      (fit, whole)

  -- Each field is read from the address of the structure plus its offset, and a write of that
  -- field there changes it and no other.
  pub access-offset :
      (i : ℕ) (xs : Values (fields_of types s)) (y : Value (layout_at (fields_of types s) i))
      (rest : Bytes)
      → FitFields (fields_of types s) xs
      → Fits (layout_at (fields_of types s) i) y
      → ((more : Bytes) × (read o (layout_at (fields_of types s) i) (
              drop
                (offset_at (fields_of types s) i)
                (image_fields o (fields_of types s) xs ++ rest))
            ≡ some (value_at (fields_of types s) i xs, more)))
        × (poke
              (offset_at (fields_of types s) i)
              (image o (layout_at (fields_of types s) i) y)
              (image_fields o (fields_of types s) xs)
            ≡ image_fields o (fields_of types s) (set_at (fields_of types s) i y xs))
  unfolding Value Fits image
  access-offset i xs y rest h k = (
    (
      later o (fields_of types s) i xs ++ rest,
      read-offset_fields o (fields_of types s) i xs h rest,
    ),
    poke-offset_fields o (fields_of types s) i y xs h k,
  )
