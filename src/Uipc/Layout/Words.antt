-- ===== src/Uipc/Layout/Words.antt =====
-- The bytes of one number: libbt/include/uipc_msg.h, the types uint8_t, uint16_t and uint32_t.
use mathlib.Core.List.{reverse, reverse-reverse}
use native.Mathlib.Nat.{pow-suc}
use myir_bluetooth.Common.{
  ℕ, zero, suc, ◌+◌, ◌*◌, ◌/◌, ◌%◌, ◌^◌, ◌<◌, ◌≡◌, refl, ap, ◌∙◌, arith, [], ◌∷◌, Bytes, length,
  length-reverse, All, All-reverse,
}
use myir_bluetooth.Uipc.Layout.{
  Order, little, big, IsByte, little_bytes, word_bytes, from_little, from_bytes,
}

pow_suc : (n : ℕ) → 256 ^ suc n ≡ 256 * 256 ^ n
pow_suc n = omega (arith, pow-suc 256 n)

length-little_bytes : (n x : ℕ) → length (little_bytes n x) ≡ n
unfolding little_bytes
length-little_bytes zero x = refl
length-little_bytes (suc n) x = omega (arith, length-little_bytes n (x / 256))

from_little-little_bytes : (n x : ℕ) → x < 256 ^ n → from_little (little_bytes n x) ≡ x
unfolding little_bytes from_little
from_little-little_bytes zero x h = omega arith
from_little-little_bytes (suc n) x h =
    omega (arith, pow_suc n, from_little-little_bytes n (x / 256) (omega (arith, pow_suc n)))

pub length-word_bytes : (o : Order) (n x : ℕ) → length (word_bytes o n x) ≡ n
unfolding word_bytes
length-word_bytes little n x = length-little_bytes n x
length-word_bytes big n x = length-reverse (little_bytes n x) ∙ length-little_bytes n x

pub from_bytes-word_bytes :
    (o : Order) (n x : ℕ) → x < 256 ^ n → from_bytes o (word_bytes o n x) ≡ x
unfolding word_bytes from_bytes
from_bytes-word_bytes little n x h = from_little-little_bytes n x h
from_bytes-word_bytes big n x h =
    ap from_little (reverse-reverse (little_bytes n x)) ∙ from_little-little_bytes n x h

-- The bytes of a number are bytes.
little_bytes-IsByte : (n x : ℕ) → All IsByte (little_bytes n x)
unfolding little_bytes
little_bytes-IsByte zero x = tt
little_bytes-IsByte (suc n) x = (omega arith, little_bytes-IsByte n (x / 256))

from_little-lt : (bs : Bytes) → All IsByte bs → from_little bs < 256 ^ length bs
unfolding from_little
from_little-lt [] h = omega arith
from_little-lt (b ∷ bs) h = omega (arith, pow_suc (length bs), from_little-lt bs h.1)

little_bytes-from_little :
    (bs : Bytes) → All IsByte bs → little_bytes (length bs) (from_little bs) ≡ bs
unfolding from_little little_bytes
little_bytes-from_little [] h = refl
little_bytes-from_little (b ∷ bs) h =
    let tail : (b + 256 * from_little bs) / 256 ≡ from_little bs = omega arith in
    let head : (b + 256 * from_little bs) % 256 ≡ b = omega arith in
    rw (head, tail) (ap (λ (t : Bytes). b ∷ t) (little_bytes-from_little bs h.1))

pub from_bytes-lt : (o : Order) (bs : Bytes) → All IsByte bs → from_bytes o bs < 256 ^ length bs
unfolding from_bytes
from_bytes-lt little bs h = from_little-lt bs h
from_bytes-lt big bs h =
    rw (length-reverse bs) at (from_little-lt (reverse bs) (All-reverse IsByte bs h))

pub word_bytes-from_bytes :
    (o : Order) (bs : Bytes) → All IsByte bs → word_bytes o (length bs) (from_bytes o bs) ≡ bs
unfolding from_bytes word_bytes
word_bytes-from_bytes little bs h = little_bytes-from_little bs h
word_bytes-from_bytes big bs h =
    ap reverse
      (rw (length-reverse bs) at (little_bytes-from_little (reverse bs) (All-reverse IsByte bs h)))
    ∙ reverse-reverse bs
