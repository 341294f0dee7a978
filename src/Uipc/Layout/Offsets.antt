-- ===== src/Uipc/Layout/Offsets.antt =====
-- Fields at their offsets: each is read where `offsetof` says, and a write changes it alone.
use mathlib.Core.List.{append_assoc}
use myir_bluetooth.Common.{
  ℕ, zero, suc, ◌+◌, ◌-◌, ◌*◌, ◌≡◌, refl, sym, ap, ◌∙◌, arith, some, List, [], ◌∷◌, ◌++◌, Bytes,
  length, length-append, take, drop, drop-drop, drop-append_self, All,
}
use myir_bluetooth.Uipc.Layout.{
  Order, Layout, word, array, struct, union, Fields, end, field, size_of, total, Value, Values,
  Fits, little, big, FitFields, images, image, image_fields, read, offset_at, layout_at, value_at,
  set_at, poke,
}
use myir_bluetooth.Uipc.Layout.Words.{length-word_bytes}
use myir_bluetooth.Uipc.Layout.Memory.{read-image_value}

module _ {A : Type 0} (write : A → Bytes) (P : A → Type 0) (n : ℕ)
    (measure : (x : A) → P x → length (write x) ≡ n) where
  length-images : (xs : List A) → All P xs → length (images write xs) ≡ length xs * n
  unfolding images
  length-images [] h = omega arith
  length-images (x ∷ xs) h =
      grind (arith, measure x h.0, length-images xs h.1, length-append (write x) (images write xs))

mutual
  unfolding Value Fits image size_of

  pub length-image_value :
      (o : Order) (l : Layout) (x : Value l) → Fits l x → length (image o l x) ≡ size_of l
  length-image_value o (word n) x h = length-word_bytes o n x
  length-image_value o (array n l) xs h =
      length-images (image o l) (Fits l) (size_of l) (length-image_value o l) xs h.1
      ∙ ap (λ (k : ℕ). k * size_of l) h.0
  length-image_value o (struct fs) xs h = length-image_fields o fs xs h
  length-image_value o (union fs) bs h = h.0

  length-image_fields :
      (o : Order) (fs : Fields) (xs : Values fs)
      → FitFields fs xs
      → length (image_fields o fs xs) ≡ total fs
  length-image_fields o end xs h = refl
  length-image_fields o (field _ l fs) (x, xs) h = omega (
    arith,
    length-append (image o l x) (image_fields o fs xs),
    length-image_value o l x h.0,
    length-image_fields o fs xs h.1,
  )

-- The bytes of the fields that follow the i-th.
unfoldable pub later : Order → (fs : Fields) → ℕ → Values fs → Bytes
unfolding Value
later o end i xs = []
later o (field _ l fs) zero (x, xs) = image_fields o fs xs
later o (field _ l fs) (suc i) (x, xs) = later o fs i xs

drop-append_exact : (n k : ℕ) (xs ys : Bytes) → length xs ≡ n → drop (n + k) (xs ++ ys) ≡ drop k ys
drop-append_exact n k xs ys h =
    rw (sym h) (drop-drop (length xs) k (xs ++ ys) ∙ ap (drop k) (drop-append_self xs ys))

read_nothing :
    (o : Order) (i : ℕ) (xs : Values end) (rest : Bytes)
    → read o (layout_at end i) rest ≡ some (value_at end i xs, rest)
unfolding read value_at
read_nothing little i xs rest = refl
read_nothing big i xs rest = refl

write_nothing : (o : Order) (y : Value (word 0)) → poke 0 (image o (word 0) y) [] ≡ []
unfolding image poke
write_nothing little y = refl
write_nothing big y = refl

pub read-offset_fields :
    (o : Order) (fs : Fields) (i : ℕ) (xs : Values fs)
    → FitFields fs xs
    → (rest : Bytes)
    → read o (layout_at fs i) (drop (offset_at fs i) (image_fields o fs xs ++ rest))
      ≡ some (value_at fs i xs, later o fs i xs ++ rest)
unfolding Value Fits image later offset_at value_at
read-offset_fields o end i xs h rest = read_nothing o i xs rest
read-offset_fields o (field _ l fs) zero (x, xs) h rest =
    rw (append_assoc (image o l x) (image_fields o fs xs) rest)
      (read-image_value o l x h.0 (image_fields o fs xs ++ rest))
read-offset_fields o (field _ l fs) (suc i) (x, xs) h rest =
    rw
      (
        append_assoc (image o l x) (image_fields o fs xs) rest,
        drop-append_exact (size_of l) (offset_at fs i) (image o l x) (image_fields o fs xs ++ rest)
            (length-image_value o l x h.0),
      )
      (read-offset_fields o fs i xs h.1 rest)

take-append_exact :
    (n k : ℕ) (xs ys : Bytes) → length xs ≡ n → take (n + k) (xs ++ ys) ≡ xs ++ take k ys
take-append_exact n k [] ys h = let e : n + k ≡ k = omega arith in rw e refl
take-append_exact n k (x ∷ xs) ys h =
    let e : n + k ≡ suc ((n - 1) + k) = omega arith in
    rw e (ap (λ (t : Bytes). x ∷ t) (take-append_exact (n - 1) k xs ys (omega (arith, h))))

poke-append :
    (n k : ℕ) (new xs ys : Bytes)
    → length xs ≡ n
    → poke (n + k) new (xs ++ ys) ≡ xs ++ poke k new ys
unfolding poke
poke-append n k new xs ys h =
    let e : n + k + length new ≡ n + (k + length new) = omega arith in
    rw (e, take-append_exact n k xs ys h, drop-append_exact n (k + length new) xs ys h)
      (append_assoc xs (take k ys) (new ++ drop (k + length new) ys))

poke_head : (new xs ys : Bytes) → length new ≡ length xs → poke 0 new (xs ++ ys) ≡ new ++ ys
unfolding poke
poke_head new xs ys h =
    let e : 0 + length new ≡ length xs = omega (arith, h) in
    rw e (ap (λ (t : Bytes). new ++ t) (drop-append_self xs ys))

pub poke-offset_fields :
    (o : Order) (fs : Fields) (i : ℕ) (y : Value (layout_at fs i)) (xs : Values fs)
    → FitFields fs xs
    → Fits (layout_at fs i) y
    → poke (offset_at fs i) (image o (layout_at fs i) y) (image_fields o fs xs)
      ≡ image_fields o fs (set_at fs i y xs)
unfolding Value Fits image offset_at set_at
poke-offset_fields o end i y xs h k = write_nothing o y
poke-offset_fields o (field _ l fs) zero y (x, xs) h k =
    poke_head (image o l y) (image o l x) (image_fields o fs xs)
      (length-image_value o l y k ∙ sym (length-image_value o l x h.0))
poke-offset_fields o (field _ l fs) (suc i) y (x, xs) h k =
    poke-append (size_of l) (offset_at fs i) (image o (layout_at fs i) y) (image o l x)
      (image_fields o fs xs) (length-image_value o l x h.0)
    ∙ ap (λ (t : Bytes). image o l x ++ t) (poke-offset_fields o fs i y xs h.1 k)
