-- ===== src/Uipc/Layout/Unions.antt =====
-- Unions: a stored member fits, is read back, and shares its first byte with every other member.
use mathlib.Core.List.{append_assoc}
use myir_bluetooth.Common.{
  ℕ, zero, suc, ◌+◌, ◌≤◌, ◌≡◌, ap, arith, Option, some, none, ◌++◌, ◌==◌, if◌then◌else◌, Bytes,
  length, length-append, length-drop, drop,
}
use myir_bluetooth.Uipc.Layout.{
  Order, Layout, word, array, struct, union, Fields, end, field, size_of, largest, Value, Values,
  word_bytes, Fits, FitFields, image, image_fields, read, layout_at, poke,
}
use myir_bluetooth.Uipc.Layout.Memory.{read-image_value}
use myir_bluetooth.Uipc.Layout.Offsets.{length-image_value}

-- The number of fields or members.
abbrev pub count : Fields → ℕ
count end = 0
count (field _ l fs) = suc (count fs)

-- A uint8_t.
abbrev pub Byte : Type 0
Byte = Value (word 1)

-- The byte that a value begins with, where its type says that it begins with a uint8_t.
unfoldable mutual
  unfolding Value

  pub tag : (l : Layout) → Value l → Option Byte
  tag (word n) x = if n == 1 then some x else none
  tag (array n l) xs = none
  tag (struct fs) xs = tag_field fs xs
  tag (union fs) bs = none

  pub tag_field : (fs : Fields) → Values fs → Option Byte
  tag_field end xs = none
  tag_field (field _ l fs) (x, xs) = tag l x

-- Assignment to the i-th member of a union object whose bytes are `old`.
unfoldable pub store :
    Order → (members : Fields) (i : ℕ) → Value (layout_at members i) → Bytes → Bytes
unfolding poke
store o members i x old = poke 0 (image o (layout_at members i) x) old

mutual
  unfolding Value tag image Fits

  image-tag :
      (o : Order) (l : Layout) (x : Value l) (rest : Bytes) {c : Byte}
      → Fits l x
      → tag l x ≡ some c
      → (more : Bytes) × (image o l x ++ rest ≡ image o (word 1) c ++ more) × Fits (word 1) c
  image-tag o (word n) x rest {c} fits h =
      let one_byte : n ≡ 1 = ground arith in
      let same : ◌≡◌ {A = ℕ} x c = ground arith in
      (
        rest,
        ap (λ (t : Bytes). t ++ rest) (λ i. word_bytes o (one_byte i) (same i)),
        rw (one_byte, same) at fits,
      )
  image-tag o (array n l) xs rest fits h = absurd (ground arith)
  image-tag o (union fs) bs rest fits h = absurd (ground arith)
  image-tag o (struct fs) xs rest fits h = image_fields-tag o fs xs rest fits h

  image_fields-tag :
      (o : Order) (fs : Fields) (xs : Values fs) (rest : Bytes) {c : Byte}
      → FitFields fs xs
      → tag_field fs xs ≡ some c
      → (more : Bytes) × (image_fields o fs xs ++ rest ≡ image o (word 1) c ++ more)
        × Fits (word 1) c
  image_fields-tag o end xs rest fits h = absurd (ground arith)
  image_fields-tag o (field _ l fs) (x, xs) rest fits h =
      rw (append_assoc (image o l x) (image_fields o fs xs) rest)
        (image-tag o l x (image_fields o fs xs ++ rest) fits.0 h)

size_of-le-largest : (fs : Fields) (i : ℕ) → size_of (layout_at fs i) ≤ largest fs
unfolding size_of
size_of-le-largest end i = omega arith
size_of-le-largest (field _ l fs) zero = omega arith
size_of-le-largest (field _ l fs) (suc i) = omega (arith, size_of-le-largest fs i)

module _ (o : Order) (members : Fields) (i : ℕ) (x : Value (layout_at members i)) (old : Bytes)
    (fits : Fits (layout_at members i) x) where
  pub length-store :
      length old ≡ largest members → length (store o members i x old) ≡ largest members
  unfolding store
  length-store h = omega (
    arith,
    length-append (image o (layout_at members i) x)
        (drop (0 + length (image o (layout_at members i) x)) old),
    length-drop (0 + length (image o (layout_at members i) x)) old,
    length-image_value o (layout_at members i) x fits,
    size_of-le-largest members i,
  )

  pub read-store :
      read o (layout_at members i) (store o members i x old)
      ≡ some (x, drop (0 + length (image o (layout_at members i) x)) old)
  unfolding store
  read-store = read-image_value o (layout_at members i) x fits _

  pub read-tag :
      {c : Byte}
      → tag (layout_at members i) x ≡ some c
      → (more : Bytes) × (read o (word 1) (store o members i x old) ≡ some (c, more))
  unfolding store Value
  read-tag {c} h =
      let (more, e, small) =
        image-tag o (layout_at members i) x
          (drop (0 + length (image o (layout_at members i) x)) old) fits h in
      (more, rw e (read-image_value o (word 1) c small more))
