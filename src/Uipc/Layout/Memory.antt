-- ===== src/Uipc/Layout/Memory.antt =====
-- Objects in packed memory: what is written is read back, from any object's own address.
use myir_bluetooth.Common.{
  ℕ, zero, suc, ◌≡◌, refl, arith, Option, some, List, [], ◌∷◌, ◌++◌, Bytes, length, All,
}
use mathlib.Core.List.{append_assoc}
use myir_bluetooth.Uipc.Layout.{
  Order, Layout, word, array, struct, union, Fields, end, field, largest, Value, Values, Fits,
  FitFields, word_bytes, split_at, repeat, images, image, image_fields, read, read_fields,
}
use myir_bluetooth.Uipc.Layout.Words.{length-word_bytes, from_bytes-word_bytes}

split_at-append : (bs rest : Bytes) → split_at (length bs) (bs ++ rest) ≡ some (bs, rest)
unfolding split_at
split_at-append [] rest = refl
split_at-append (b ∷ bs) rest = rw (split_at-append bs rest)

split_at_exact :
    (n : ℕ) (bs rest : Bytes) → length bs ≡ n → split_at n (bs ++ rest) ≡ some (bs, rest)
split_at_exact n bs rest h = rw h at (split_at-append bs rest)

module _ {A : Type 0} (write : A → Bytes) (parse : Bytes → Option (A × Bytes)) (P : A → Type 0)
    (inverse : (x : A) → P x → (rest : Bytes) → parse (write x ++ rest) ≡ some (x, rest)) where
  repeat-images :
      (n : ℕ) (xs : List A)
      → length xs ≡ n
      → All P xs
      → (rest : Bytes) → repeat n parse (images write xs ++ rest) ≡ some (xs, rest)
  unfolding repeat images
  repeat-images zero [] e h rest = refl
  repeat-images zero (x ∷ xs) e h rest = absurd (omega arith)
  repeat-images (suc n) [] e h rest = absurd (omega arith)
  repeat-images (suc n) (x ∷ xs) e h rest = rw (
    append_assoc (write x) (images write xs) rest,
    inverse x h.0 (images write xs ++ rest),
    repeat-images n xs (omega arith) h.1 rest,
  )

mutual
  unfolding Value Fits image read

  pub read-image_value :
      (o : Order) (l : Layout) (x : Value l)
      → Fits l x
      → (rest : Bytes) → read o l (image o l x ++ rest) ≡ some (x, rest)
  read-image_value o (word n) x h rest = rw (
    split_at_exact n (word_bytes o n x) rest (length-word_bytes o n x),
    from_bytes-word_bytes o n x h,
  )
  read-image_value o (array n l) xs h rest =
      repeat-images (image o l) (read o l) (Fits l) (read-image_value o l) n xs h.0 h.1 rest
  read-image_value o (struct fs) xs h rest = read_fields-image_fields o fs xs h rest
  read-image_value o (union fs) bs h rest = split_at_exact (largest fs) bs rest h.0

  read_fields-image_fields :
      (o : Order) (fs : Fields) (xs : Values fs)
      → FitFields fs xs
      → (rest : Bytes) → read_fields o fs (image_fields o fs xs ++ rest) ≡ some (xs, rest)
  read_fields-image_fields o end xs h rest = refl
  read_fields-image_fields o (field _ l fs) (x, xs) h rest = rw (
    append_assoc (image o l x) (image_fields o fs xs) rest,
    read-image_value o l x h.0 (image_fields o fs xs ++ rest),
    read_fields-image_fields o fs xs h.1 rest,
  )
