-- ===== src/Userial/Opening.antt =====
-- Opening and closing the port.
use myir_bluetooth.Common.{
  ℕ, ◌+◌, Bool, true, false, ◌&&◌, ◌||◌, Option, none, some, ◌≡◌, ◌⊎◌, arith, if◌then◌else◌,
}
use myir_bluetooth.Config.{Config}
use myir_bluetooth.Ledger.{opens, closes}
use myir_bluetooth.Platform.{Env, StopBits, Speed}
use myir_bluetooth.Userial.Baud.{userial_to_tcio_baud}
use myir_bluetooth.Userial.Port.{
  UserialCfg, has, userial_stopbits_1, userial_stopbits_2, userial_parity_none, userial_parity_even,
  userial_parity_odd, userial_databits_5, userial_databits_6, userial_databits_7,
  userial_databits_8, data_bits, parity, stop_bits, userial_ioctl_init_bt_wake, set_up, open_port,
  check_format, userial_vendor_open, userial_vendor_close, set_fd,
}
use myir_bluetooth.World.{World}

unfoldable pub has_data_bits : ℕ → Bool
has_data_bits f =
    has f userial_databits_8
    || (has f userial_databits_7 || (has f userial_databits_6 || has f userial_databits_5))

unfoldable pub has_parity : ℕ → Bool
has_parity f = has f userial_parity_none || (has f userial_parity_even || has f userial_parity_odd)

unfoldable pub has_stop_bits : ℕ → Bool
has_stop_bits f = has f userial_stopbits_1 || has f userial_stopbits_2

-- A supported baud rate, and a format that names data bits, a parity and stop bits.
abbrev pub accepted : UserialCfg → Bool
accepted cfg =
    (userial_to_tcio_baud cfg.baud).0
    && (has_data_bits cfg.fmt && (has_parity cfg.fmt && has_stop_bits cfg.fmt))

abbrev is_some {ℓ} : {A : Type ℓ} → Option A → Bool
is_some none = false
is_some (some _) = true

is_some-data_bits : (f : ℕ) → is_some (data_bits f) ≡ has_data_bits f
unfolding data_bits has_data_bits
is_some-data_bits f = ground arith

is_some-parity : (f : ℕ) → is_some (parity f) ≡ has_parity f
unfolding parity has_parity
is_some-parity f = ground arith

is_some-stop_bits : (f : ℕ) → is_some (stop_bits f) ≡ has_stop_bits f
unfolding stop_bits has_stop_bits
is_some-stop_bits f = ground arith

-- The descriptors that the control block holds.
abbrev pub held : Option ℕ → ℕ
held none = 0
held (some _) = 1

-- One more file is open than closed exactly if the port is open.
pub record IsBalanced (w : World) : Type 0 where
  pub balance : opens w.trace ≡ closes w.trace + held w.serial.fd

module _ (c : Config) (e : Env) where
  set_up_keeps :
      (fd : ℕ) (s : StopBits) (b : Speed) (w : World)
      → let r = set_up c e fd s b w in
        (r.serial.fd ≡ w.serial.fd)
        × (opens r.trace ≡ opens w.trace)
        × (closes r.trace ≡ closes w.trace)
  unfolding set_up userial_ioctl_init_bt_wake
  set_up_keeps fd s b w = ground arith

  abbrev PortOpened : World → World × Option ℕ → Type 0
  PortOpened w r =
      (r.1 ≡ e.open_answer w.trace w.serial.port_name)
      × (r.0.serial.fd ≡ r.1)
      × (opens r.0.trace ≡ opens w.trace + held r.1)
      × (closes r.0.trace ≡ closes w.trace)

  open_port_lem : (s : StopBits) (b : Speed) (w : World) → PortOpened w (open_port c e s b w)
  unfolding open_port
  open_port_lem s b w = grind (arith, set_up_keeps)

  check_format_opens :
      (f : ℕ) (b : Speed) (w : World)
      → (has_data_bits f && (has_parity f && has_stop_bits f)) ≡ true
      → PortOpened w (check_format c e f b w)
  unfolding check_format
  check_format_opens f b w h =
      grind (arith, is_some-data_bits, is_some-parity, is_some-stop_bits, open_port_lem)

  check_format_refuses :
      (f : ℕ) (b : Speed) (w : World)
      → (has_data_bits f && (has_parity f && has_stop_bits f)) ≡ false
      → check_format c e f b w ≡ (w, none)
  unfolding check_format
  check_format_refuses f b w h =
      ground (arith, is_some-data_bits f, is_some-parity f, is_some-stop_bits f)

  -- A configuration with an unsupported baud rate or an incomplete format is refused with -1 and
  -- no system call is made; with any other, what `open` answers for the port's name is returned.
  -- In each case the control block holds the returned descriptor.
  pub userial_vendor_open_result :
      (cfg : UserialCfg) (w : World)
      → let r = userial_vendor_open c e cfg w in
        (r.1 ≡ (if accepted cfg then e.open_answer w.trace w.serial.port_name else none))
        × (r.0.serial.fd ≡ r.1)
        × ((accepted cfg ≡ true) ⊎ (r.0.trace ≡ w.trace))
  unfolding userial_vendor_open
  userial_vendor_open_result cfg w =
      let b : Speed = (userial_to_tcio_baud cfg.baud).1 in
      ground (
        arith,
        check_format_opens cfg.fmt b (set_fd none w),
        check_format_refuses cfg.fmt b (set_fd none w),
      )

  -- Opening a closed port keeps the balance: it ends with one more open file exactly if a
  -- descriptor is held.
  pub userial_vendor_open-IsBalanced :
      (cfg : UserialCfg) (w : World)
      → w.serial.fd ≡ none
      → IsBalanced w
      → IsBalanced (userial_vendor_open c e cfg w).0
  unfolding userial_vendor_open
  userial_vendor_open-IsBalanced cfg w closed h =
      let b : Speed = (userial_to_tcio_baud cfg.baud).1 in
      ground (
        arith,
        check_format_opens cfg.fmt b (set_fd none w),
        check_format_refuses cfg.fmt b (set_fd none w),
      )

  -- Opening again without closing loses the first descriptor: whenever the port was open and the
  -- second `open` succeeds, two files are open and one is held.
  pub userial_vendor_open_leaks :
      (cfg : UserialCfg) (w : World) (old new : ℕ)
      → w.serial.fd ≡ some old
      → accepted cfg ≡ true
      → e.open_answer w.trace w.serial.port_name ≡ some new
      → IsBalanced w
      → let w' = (userial_vendor_open c e cfg w).0 in
        (w'.serial.fd ≡ some new) × (opens w'.trace ≡ closes w'.trace + 2)
  unfolding userial_vendor_open
  userial_vendor_open_leaks cfg w old new held ok opened h =
      let b : Speed = (userial_to_tcio_baud cfg.baud).1 in
      ground (arith, check_format_opens cfg.fmt b (set_fd none w))

  -- Closing keeps the balance, leaves no descriptor held, and does nothing the second time.
  pub userial_vendor_close_lem :
      (w : World)
      → IsBalanced w
      → let w' = userial_vendor_close c e w in
        IsBalanced w' × (w'.serial.fd ≡ none) × (userial_vendor_close c e w' ≡ w')
  unfolding userial_vendor_close
  userial_vendor_close_lem w h = ground arith
