-- ===== src/Uipc/Layout.antt =====
-- libbt/include/uipc_msg.h, lines 53-54: how a structure under `#pragma pack(1)` lies in memory.
mod Words
pub mod Memory
pub mod Typing
pub mod Offsets
pub mod Unions
use Prim.Native.Nat.{max}
use Prim.Native.String.{String}
use mathlib.Core.List.{reverse}
use myir_bluetooth.Common.{
  ℕ, zero, suc, ◌+◌, ◌*◌, ◌/◌, ◌%◌, ◌^◌, ◌<◌, ◌≡◌, Option, none, some, List, [], ◌∷◌, ◌++◌, ◌>>=◌,
  Bytes, length, take, drop, All,
}

-- The byte order of the processor.
pub data Order : Type 0 where
  little : Order
  big : Order

-- `word n` is an unsigned integer type of n bytes. The name of a field is kept with its type.
mutual
  pub data Layout : Type 0 where
    word : ℕ → Layout
    array : ℕ → Layout → Layout
    struct : Fields → Layout
    union : Fields → Layout

  pub data Fields : Type 0 where
    end : Fields
    field : String → Layout → Fields → Fields

-- `sizeof`: with an alignment of 1 there is no padding between fields nor after the last.
unfoldable mutual
  pub size_of : Layout → ℕ
  size_of (word n) = n
  size_of (array n l) = n * size_of l
  size_of (struct fs) = total fs
  size_of (union fs) = largest fs

  pub total : Fields → ℕ
  total end = 0
  total (field _ l fs) = size_of l + total fs

  pub largest : Fields → ℕ
  largest end = 0
  largest (field _ l fs) = max (size_of l) (largest fs)

-- What an object holds. Of a union only the bytes are known.
unfoldable mutual
  pub Value : Layout → Type 0
  Value (word n) = ℕ
  Value (array n l) = List (Value l)
  Value (struct fs) = Values fs
  Value (union fs) = Bytes

  pub Values : Fields → Type 0
  Values end = Unit {0}
  Values (field _ l fs) = Value l × Values fs

abbrev pub IsByte : ℕ → Type 0
IsByte b = b < 256

-- Each number is in the range of its type.
unfoldable mutual
  unfolding Value

  pub Fits : (l : Layout) → Value l → Type 0
  Fits (word n) x = x < 256 ^ n
  Fits (array n l) xs = (length xs ≡ n) × All (Fits l) xs
  Fits (struct fs) xs = FitFields fs xs
  Fits (union fs) bytes = (length bytes ≡ largest fs) × All IsByte bytes

  pub FitFields : (fs : Fields) → Values fs → Type 0
  FitFields end xs = Unit {0}
  FitFields (field _ l fs) (x, xs) = Fits l x × FitFields fs xs

little_bytes : ℕ → ℕ → Bytes
little_bytes zero x = []
little_bytes (suc n) x = (x % 256) ∷ little_bytes n (x / 256)

pub word_bytes : Order → ℕ → ℕ → Bytes
word_bytes little n x = little_bytes n x
word_bytes big n x = reverse (little_bytes n x)

module _ {A : Type 0} where
  images : (A → Bytes) → List A → Bytes
  images f [] = []
  images f (x ∷ xs) = f x ++ images f xs

-- The bytes of an object.
unfoldable mutual
  unfolding Value word_bytes little_bytes images

  pub image : Order → (l : Layout) → Value l → Bytes
  image o (word n) x = word_bytes o n x
  image o (array n l) xs = images (image o l) xs
  image o (struct fs) xs = image_fields o fs xs
  image o (union fs) bytes = bytes

  pub image_fields : Order → (fs : Fields) → Values fs → Bytes
  image_fields o end xs = []
  image_fields o (field _ l fs) (x, xs) = image o l x ++ image_fields o fs xs

from_little : Bytes → ℕ
from_little [] = 0
from_little (b ∷ bs) = b + 256 * from_little bs

pub from_bytes : Order → Bytes → ℕ
from_bytes little bs = from_little bs
from_bytes big bs = from_little (reverse bs)

-- `none` is a read past the end of the memory.
split_at : ℕ → Bytes → Option (Bytes × Bytes)
split_at zero bs = some ([], bs)
split_at (suc n) [] = none
split_at (suc n) (b ∷ bs) = split_at n bs >>= λ (p : Bytes × Bytes). some (b ∷ p.0, p.1)

module _ {A : Type 0} where
  repeat : ℕ → (Bytes → Option (A × Bytes)) → Bytes → Option (List A × Bytes)
  repeat zero f bs = some ([], bs)
  repeat (suc n) f bs =
      f bs >>= λ (p : A × Bytes). repeat n f p.1 >>= λ (q : List A × Bytes). some (p.0 ∷ q.0, q.1)

-- The object that stands at the head of the memory, and the memory after it.
unfoldable mutual
  unfolding Value split_at from_bytes from_little repeat

  pub read : Order → (l : Layout) → Bytes → Option (Value l × Bytes)
  read o (word n) bs = split_at n bs >>= λ (p : Bytes × Bytes). some (from_bytes o p.0, p.1)
  read o (array n l) bs = repeat n (read o l) bs
  read o (struct fs) bs = read_fields o fs bs
  read o (union fs) bs = split_at (largest fs) bs

  pub read_fields : Order → (fs : Fields) → Bytes → Option (Values fs × Bytes)
  read_fields o end bs = some (tt, bs)
  read_fields o (field _ l fs) bs = read o l bs >>= λ (p : Value l × Bytes).
      read_fields o fs p.1 >>= λ (q : Values fs × Bytes). some ((p.0, q.0), q.1)

-- The fields by their position, from 0: `offsetof`, the type and the value.
unfoldable pub offset_at : Fields → ℕ → ℕ
offset_at end i = 0
offset_at (field _ l fs) zero = 0
offset_at (field _ l fs) (suc i) = size_of l + offset_at fs i

abbrev pub layout_at : Fields → ℕ → Layout
layout_at end i = word 0
layout_at (field _ l fs) zero = l
layout_at (field _ l fs) (suc i) = layout_at fs i

unfoldable pub value_at : (fs : Fields) (i : ℕ) → Values fs → Value (layout_at fs i)
unfolding Value
value_at end i xs = 0
value_at (field _ l fs) zero (x, xs) = x
value_at (field _ l fs) (suc i) (x, xs) = value_at fs i xs

unfoldable pub set_at : (fs : Fields) (i : ℕ) → Value (layout_at fs i) → Values fs → Values fs
unfolding Value
set_at end i y xs = xs
set_at (field _ l fs) zero y (x, xs) = (y, xs)
set_at (field _ l fs) (suc i) y (x, xs) = (x, set_at fs i y xs)

-- A write through a pointer to the k-th byte of the memory.
unfoldable pub poke : ℕ → Bytes → Bytes → Bytes
poke k new memory = take k memory ++ (new ++ drop (k + length new) memory)
