-- ===== src/Userial/Port.antt =====
-- The functions of libbt/src/userial_vendor.c on the port. A file descriptor of -1 is `none`.
use myir_bluetooth.Common.{
  ℕ, ◌/◌, ◌%◌, Bool, Option, none, some, ◌∷◌, ◌==◌, ltb, if◌then◌else◌, Bytes, length, take,
}
use myir_bluetooth.Config.{Config}
use myir_bluetooth.Platform.{
  close_file, tcflush, tcgetattr, tcsetattr, ioctl, IoctlOp, bt_wake_assert, bt_wake_deassert,
  bt_wake_get_st, tiocsetd, Env, StopBits, no_flag, cstopb, Speed,
}
use myir_bluetooth.Userial.Baud.{userial_to_tcio_baud}
use myir_bluetooth.World.{World, log, call_open}

-- `tUSERIAL_CFG`.
pub record UserialCfg : Type 0 where
  pub fmt : ℕ
  pub baud : ℕ

abbrev pub userial_stopbits_1 : ℕ
userial_stopbits_1 = 1

abbrev pub userial_stopbits_2 : ℕ
userial_stopbits_2 = 4

abbrev pub userial_parity_none : ℕ
userial_parity_none = 8

abbrev pub userial_parity_even : ℕ
userial_parity_even = 16

abbrev pub userial_parity_odd : ℕ
userial_parity_odd = 32

abbrev pub userial_databits_5 : ℕ
userial_databits_5 = 64

abbrev pub userial_databits_6 : ℕ
userial_databits_6 = 128

abbrev pub userial_databits_7 : ℕ
userial_databits_7 = 256

abbrev pub userial_databits_8 : ℕ
userial_databits_8 = 512

-- `fmt & mask` is not 0, for a mask of one bit.
abbrev pub has : ℕ → ℕ → Bool
has fmt mask = fmt / mask % 2 == 1

pub data DataBits : Type 0 where
  cs5 cs6 cs7 cs8 : DataBits

pub data Parity : Type 0 where
  no_parity parenb parenb_parodd : Parity

-- The three tests of `userial_vendor_open` on the format; `none` is `return -1`.
unfoldable pub data_bits : ℕ → Option DataBits
data_bits fmt =
    if has fmt userial_databits_8
    then some cs8
    else if has fmt userial_databits_7
    then some cs7
    else if has fmt userial_databits_6
    then some cs6
    else if has fmt userial_databits_5
    then some cs5
    else none

unfoldable pub parity : ℕ → Option Parity
parity fmt =
    if has fmt userial_parity_none
    then some no_parity
    else if has fmt userial_parity_even
    then some parenb
    else if has fmt userial_parity_odd
    then some parenb_parodd
    else none

unfoldable pub stop_bits : ℕ → Option StopBits
stop_bits fmt =
    if has fmt userial_stopbits_1
    then some no_flag
    else if has fmt userial_stopbits_2
    then some cstopb
    else none

abbrev pub set_fd : Option ℕ → World → World
set_fd fd w = record w { serial = record w.serial { fd = fd } }

abbrev pub set_termios : ℕ → World → World
set_termios t w = record w { serial = record w.serial { termios = t } }

abbrev pub vnd_port_name_maxlen : ℕ
vnd_port_name_maxlen = 256

module _ (c : Config) (e : Env) where
  -- `snprintf` truncates.
  unfoldable pub userial_vendor_init : World → World
  userial_vendor_init w = record w {
    serial = record w.serial { fd = none; port_name = take 255 c.uart_device_port };
  }

  unfoldable pub userial_ioctl_init_bt_wake : ℕ → World → World
  userial_ioctl_init_bt_wake fd w =
      let w₁ : World =
        if c.bt_wake_userial_ldisc then log (ioctl w.serial.fd (tiocsetd c.n_brcm_hci)) w else w in
      log (ioctl (some fd) bt_wake_get_st) (log (ioctl (some fd) bt_wake_assert) w₁)

  -- From `tcflush` on, once the port is open.
  unfoldable pub set_up : ℕ → StopBits → Speed → World → World
  unfolding userial_ioctl_init_bt_wake
  set_up fd stop baud w =
      let t₁ : ℕ = e.or_crtscts (e.cfmakeraw (e.termios_answer (tcflush fd ∷ w.trace) fd)) stop in
      let t₂ : ℕ = e.cfsetspeed t₁ baud in
      let w₁ : World = log (tcsetattr (some fd) t₂) (
        log (tcflush fd) (
          log (tcflush fd) (
            log (tcsetattr (some fd) t₁) (
              log (tcflush fd)
                (log (tcsetattr (some fd) t₁) (log (tcgetattr fd) (log (tcflush fd) w))))))) in
      let w₂ : World = set_termios t₂ w₁ in
      if c.bt_wake_via_userial_ioctl then userial_ioctl_init_bt_wake fd w₂ else w₂

  -- `open`, and what follows it.
  unfoldable pub open_port : StopBits → Speed → World → World × Option ℕ
  open_port stop baud w =
      let (w₁, fd) = call_open e w.serial.port_name w in
      elim fd [
        | none ↦ (set_fd none w₁, none)
        | some n ↦ (set_up n stop baud (set_fd (some n) w₁), some n)
      ]

  -- The rest of the function once the baud rate is known; data bits and parity are computed and
  -- not used.
  unfoldable pub check_format : ℕ → Speed → World → World × Option ℕ
  check_format fmt baud w = elim (data_bits fmt) [
    | none ↦ (w, none)
    | some d ↦ elim (parity fmt) [
      | none ↦ (w, none)
      | some p ↦ elim (stop_bits fmt) [ none ↦ (w, none) | some s ↦ open_port s baud w ]
    ]
  ]

  unfoldable pub userial_vendor_open : UserialCfg → World → World × Option ℕ
  userial_vendor_open cfg w =
      let w₁ : World = set_fd none w in
      let (supported, baud) = userial_to_tcio_baud cfg.baud in
      if supported then check_format cfg.fmt baud w₁ else (w₁, none)

  unfoldable pub userial_vendor_close : World → World
  userial_vendor_close w = elim w.serial.fd [
    | none ↦ w
    | some n ↦
        let w₁ : World =
          if c.bt_wake_via_userial_ioctl then log (ioctl (some n) bt_wake_deassert) w else w in
        set_fd none (log (close_file n) (log (tcflush n) w₁))
  ]

  unfoldable pub userial_vendor_set_baud : ℕ → World → World
  userial_vendor_set_baud userial_baud w =
      let t : ℕ = e.cfsetspeed w.serial.termios (userial_to_tcio_baud userial_baud).1 in
      log (tcsetattr w.serial.fd t) (set_termios t w)

  -- The operations that the build compiles in; any other does nothing.
  unfoldable pub userial_vendor_ioctl : IoctlOp → World → World
  userial_vendor_ioctl op w =
      if c.bt_wake_via_userial_ioctl then log (ioctl w.serial.fd op) w else w

-- `strcpy` into `port_name`: `none` if the value and its NUL do not fit.
unfoldable pub userial_set_port : Bytes → World → Option World
userial_set_port value w =
    if ltb (length value) vnd_port_name_maxlen
    then some (record w { serial = record w.serial { port_name = value } })
    else none
