-- ===== src/Userial/Baud.antt =====
-- Baud rates: USERIAL_BAUD_* of userial_vendor.h, the line speeds of hardware.c and the speeds of
-- termios.h.
use myir_bluetooth.Common.{
  ℕ, Bool, true, false, ◌||◌, ◌≡◌, ◌⊎◌, ◌↔◌, List, [], ◌∷◌, arith, ◌==◌, leb, if◌then◌else◌,
}
use myir_bluetooth.Platform.{
  Speed, b600, b1200, b9600, b19200, b57600, b115200, b230400, b460800, b921600, b1000000, b2000000,
  b3000000, b4000000,
}

-- USERIAL_BAUD_*.
abbrev pub baud_300 : ℕ
baud_300 = 0

abbrev pub baud_600 : ℕ
baud_600 = 1

abbrev pub baud_1200 : ℕ
baud_1200 = 2

abbrev pub baud_2400 : ℕ
baud_2400 = 3

abbrev pub baud_9600 : ℕ
baud_9600 = 4

abbrev pub baud_19200 : ℕ
baud_19200 = 5

abbrev pub baud_57600 : ℕ
baud_57600 = 6

abbrev pub baud_115200 : ℕ
baud_115200 = 7

abbrev pub baud_230400 : ℕ
baud_230400 = 8

abbrev pub baud_460800 : ℕ
baud_460800 = 9

abbrev pub baud_921600 : ℕ
baud_921600 = 10

abbrev pub baud_1m : ℕ
baud_1m = 11

abbrev pub baud_1_5m : ℕ
baud_1_5m = 12

abbrev pub baud_2m : ℕ
baud_2m = 13

abbrev pub baud_3m : ℕ
baud_3m = 14

abbrev pub baud_4m : ℕ
baud_4m = 15

abbrev pub baud_auto : ℕ
baud_auto = 16

-- `userial_to_tcio_baud`: the returned flag, and what is stored through `baud`.
unfoldable pub userial_to_tcio_baud : ℕ → Bool × Speed
userial_to_tcio_baud cfg_baud =
    if cfg_baud == baud_115200
    then (true, b115200)
    else if cfg_baud == baud_4m
    then (true, b4000000)
    else if cfg_baud == baud_3m
    then (true, b3000000)
    else if cfg_baud == baud_2m
    then (true, b2000000)
    else if cfg_baud == baud_1m
    then (true, b1000000)
    else if cfg_baud == baud_921600
    then (true, b921600)
    else if cfg_baud == baud_460800
    then (true, b460800)
    else if cfg_baud == baud_230400
    then (true, b230400)
    else if cfg_baud == baud_57600
    then (true, b57600)
    else if cfg_baud == baud_19200
    then (true, b19200)
    else if cfg_baud == baud_9600
    then (true, b9600)
    else if cfg_baud == baud_1200
    then (true, b1200)
    else if cfg_baud == baud_600
    then (true, b600)
    else (false, b115200)

-- `line_speed_to_userial_baud` of hardware.c.
unfoldable pub line_speed_to_userial_baud : ℕ → ℕ
line_speed_to_userial_baud line_speed =
    if line_speed == 4000000
    then baud_4m
    else if line_speed == 3000000
    then baud_3m
    else if line_speed == 2000000
    then baud_2m
    else if line_speed == 1000000
    then baud_1m
    else if line_speed == 921600
    then baud_921600
    else if line_speed == 460800
    then baud_460800
    else if line_speed == 230400
    then baud_230400
    else if line_speed == 115200
    then baud_115200
    else if line_speed == 57600
    then baud_57600
    else if line_speed == 19200
    then baud_19200
    else if line_speed == 9600
    then baud_9600
    else if line_speed == 1200
    then baud_1200
    else if line_speed == 600
    then baud_600
    else baud_115200

-- The line speed that a termios constant stands for.
abbrev pub rate : Speed → ℕ
rate b600 = 600
rate b1200 = 1200
rate b9600 = 9600
rate b19200 = 19200
rate b57600 = 57600
rate b230400 = 230400
rate b460800 = 460800
rate b921600 = 921600
rate b1000000 = 1000000
rate b2000000 = 2000000
rate b3000000 = 3000000
rate b4000000 = 4000000
rate b115200 = 115200

abbrev elem : ℕ → List ℕ → Bool
elem n [] = false
elem n (x ∷ xs) = n == x || elem n xs

-- The line speeds that the driver supports.
abbrev pub supported_speeds : List ℕ
supported_speeds =
    4000000 ∷ 3000000 ∷ 2000000 ∷ 1000000 ∷ 921600 ∷ 460800 ∷ 230400 ∷ 115200 ∷ 57600 ∷ 19200 ∷ 9600
    ∷ 1200 ∷ 600 ∷ []

-- The baud codes with no termios constant: 300, 2400, 1.5M, AUTO and what is no code.
abbrev pub unsupported : ℕ → Bool
unsupported b = b == baud_300 || b == baud_2400 || b == baud_1_5m || leb baud_auto b

abbrev pub nearest : ℕ → ℕ
nearest s = if elem s supported_speeds then s else 115200

-- For every line speed, the baud code that hardware.c picks is one that the serial driver accepts,
-- and the driver then sets that very speed, or 115200 where the speed is not supported.
pub userial_to_tcio_baud-line_speed :
    (s : ℕ)
    → let r = userial_to_tcio_baud (line_speed_to_userial_baud s) in
      (r.0 ≡ true) × (rate r.1 ≡ nearest s)
unfolding userial_to_tcio_baud line_speed_to_userial_baud
userial_to_tcio_baud-line_speed s = ground arith

-- The driver refuses a baud code exactly when it is 300, 2400, 1.5M, AUTO or above AUTO, and on
-- refusal the speed it stores is 115200.
pub userial_to_tcio_baud_refuses :
    (b : ℕ)
    → let r = userial_to_tcio_baud b in
      ((r.0 ≡ false) ↔ (unsupported b ≡ true)) × ((r.0 ≡ true) ⊎ (r.1 ≡ b115200))
unfolding userial_to_tcio_baud
userial_to_tcio_baud_refuses b = ground arith
