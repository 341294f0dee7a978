-- ===== src/Uipc/Layout/Typing.antt =====
-- A successful read yields a value of the type's range, and the memory is that value's image.
use mathlib.Core.List.{append_assoc}
use mathlib.Core.Path.{subst}
use myir_bluetooth.Common.{
  ℕ, zero, suc, ◌≡◌, refl, ap, ◌∙◌, arith, Option, some, List, [], ◌∷◌, ◌++◌, Bytes, length, All,
  bind_some,
}
use myir_bluetooth.Uipc.Layout.{
  Order, IsByte, Layout, word, array, struct, union, Fields, end, field, largest, Value, Values,
  Fits, FitFields, from_bytes, split_at, repeat, images, image, image_fields, read, read_fields,
}
use myir_bluetooth.Uipc.Layout.Words.{from_bytes-lt, word_bytes-from_bytes}

-- A successful read splits the memory.
split_at-some :
    (n : ℕ) (bs : Bytes) {a r : Bytes}
    → split_at n bs ≡ some (a, r)
    → (length a ≡ n) × (a ++ r ≡ bs)
unfolding split_at
split_at-some zero bs h = ground arith
split_at-some (suc n) [] h = ground arith
split_at-some (suc n) (b ∷ bs) h =
    let (q, at_tail, e) = bind_some (split_at n bs) (λ q. some (b ∷ q.0, q.1)) h in
    ground (arith, split_at-some n bs at_tail)

some_injective : {A : Type 0} (P : A → Type 0) {a b : A} → some a ≡ some b → P a → P b
some_injective P {a} {b} h p = let e : a ≡ b = cc in subst P e p

-- The memory `bs` is an object within its range, and what follows it.
abbrev pub Splits : Order → (l : Layout) → Bytes → Value l × Bytes → Type 0
Splits o l bs p = Fits l p.0 × (image o l p.0 ++ p.1 ≡ bs) × All IsByte p.1

abbrev SplitsFields : Order → (fs : Fields) → Bytes → Values fs × Bytes → Type 0
SplitsFields o fs bs p = FitFields fs p.0 × (image_fields o fs p.0 ++ p.1 ≡ bs) × All IsByte p.1

All-prefix : (xs ys : Bytes) → All IsByte (xs ++ ys) → All IsByte xs × All IsByte ys
All-prefix [] ys h = (tt, h)
All-prefix (x ∷ xs) ys h = let (a, b) = All-prefix xs ys h.1 in ((h.0, a), b)

split_at-Splits :
    (n : ℕ) (bs : Bytes) {p : Bytes × Bytes}
    → All IsByte bs
    → split_at n bs ≡ some p
    → (length p.0 ≡ n) × All IsByte p.0 × (p.0 ++ p.1 ≡ bs) × All IsByte p.1
split_at-Splits n bs {p} bytes h =
    let (short, whole) = split_at-some n bs {a = p.0} {r = p.1} h in
    let (head, tail) = All-prefix p.0 p.1 (rw whole bytes) in (short, head, whole, tail)

rejoin : (a b c : Bytes) {r bs : Bytes} → a ++ r ≡ bs → b ++ c ≡ r → (a ++ b) ++ c ≡ bs
rejoin a b c h k = append_assoc a b c ∙ ap (λ (t : Bytes). a ++ t) k ∙ h

module _ {A : Type 0} (write : A → Bytes) (parse : Bytes → Option (A × Bytes)) (P : A → Type 0)
    (sound : (bs : Bytes) (p : A × Bytes)
      → All IsByte bs
      → parse bs ≡ some p
      → P p.0 × (write p.0 ++ p.1 ≡ bs) × All IsByte p.1) where
  repeat_sound :
      (n : ℕ) (bs : Bytes) {p : List A × Bytes}
      → All IsByte bs
      → repeat n parse bs ≡ some p
      → ((length p.0 ≡ n) × All P p.0) × (images write p.0 ++ p.1 ≡ bs) × All IsByte p.1
  unfolding repeat images
  repeat_sound zero bs bytes h =
      some_injective
        (λ (p : List A × Bytes).
          ((length p.0 ≡ 0) × All P p.0) × (images write p.0 ++ p.1 ≡ bs) × All IsByte p.1)
        h ((refl, tt), refl, bytes)
  repeat_sound (suc n) bs bytes h =
      let (x, at_head, rest) = bind_some (parse bs) _ h in
      let (fit, whole, tail) = sound bs x bytes at_head in
      let (y, at_tail, e) = bind_some (repeat n parse x.1) _ rest in
      let ((long, fits), wholes, tails) = repeat_sound n x.1 tail at_tail in
      some_injective
        (λ (p : List A × Bytes).
          ((length p.0 ≡ suc n) × All P p.0) × (images write p.0 ++ p.1 ≡ bs) × All IsByte p.1)
        e
        (
          (omega (arith, long), (fit, fits)),
          rejoin (write x.0) (images write y.0) y.1 whole wholes,
          tails,
        )

mutual
  unfolding Value Fits image read

  pub read-Splits_value :
      (o : Order) (l : Layout) (bs : Bytes) {p : Value l × Bytes}
      → All IsByte bs
      → read o l bs ≡ some p
      → Splits o l bs p
  read-Splits_value o (word n) bs bytes h =
      let (q, at_word, e) = bind_some (split_at n bs) (λ q. some (from_bytes o q.0, q.1)) h in
      let (short, head, whole, tail) = split_at-Splits n bs bytes at_word in
      some_injective (Splits o (word n) bs) e (
        rw short at (from_bytes-lt o q.0 head),
        rw (rw short at (word_bytes-from_bytes o q.0 head)) whole,
        tail,
      )
  read-Splits_value o (array n l) bs bytes h =
      repeat_sound (image o l) (read o l) (Fits l) (λ more p. read-Splits_value o l more {p = p}) n
        bs bytes h
  read-Splits_value o (struct fs) bs bytes h = read_fields-SplitsFields o fs bs bytes h
  read-Splits_value o (union fs) bs bytes h =
      let (short, head, whole, tail) = split_at-Splits (largest fs) bs bytes h in
      ((short, head), whole, tail)

  read_fields-SplitsFields :
      (o : Order) (fs : Fields) (bs : Bytes) {p : Values fs × Bytes}
      → All IsByte bs
      → read_fields o fs bs ≡ some p
      → SplitsFields o fs bs p
  read_fields-SplitsFields o end bs bytes h =
      some_injective (SplitsFields o end bs) h (tt, refl, bytes)
  read_fields-SplitsFields o (field name l fs) bs bytes h =
      let (x, at_head, rest) = bind_some (read o l bs) _ h in
      let (fit, whole, tail) = read-Splits_value o l bs bytes at_head in
      let (y, at_tail, e) = bind_some (read_fields o fs x.1) _ rest in
      let (fits, wholes, tails) = read_fields-SplitsFields o fs x.1 tail at_tail in
      some_injective (SplitsFields o (field name l fs) bs) e
        ((fit, fits), rejoin (image o l x.0) (image_fields o fs y.0) y.1 whole wholes, tails)
