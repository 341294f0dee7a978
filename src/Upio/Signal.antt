-- ===== src/Upio/Signal.antt =====
-- The signals of libbt/src/upio.c, over their proc nodes or through the serial port.
use myir_bluetooth.Common.{
  ℕ, ◌*◌, ◌/◌, ◌%◌, Bool, true, false, not, ◌&&◌, ◌||◌, Option, none, some, [], ◌∷◌, ◌==◌,
  if◌then◌else◌, Bytes, codes,
}
use myir_bluetooth.Config.{Config}
use myir_bluetooth.Platform.{
  Env, bt_wake_assert, bt_wake_deassert, write_file, close_file, timer_create, timer_settime,
  timer_delete, TimerSpec, armed, disarmed, uninitialised,
}
use myir_bluetooth.Userial.Port.{userial_vendor_ioctl}
use myir_bluetooth.World.{World, Upio, Pio, Action, unknown, deassert, assert, log, call_open}

abbrev pub same : Action → Action → Bool
same unknown unknown = true
same deassert deassert = true
same assert assert = true
same _ _ = false

abbrev pub vendor_lpm_proc_node : Bytes
vendor_lpm_proc_node = codes "/proc/bluetooth/sleep/lpm"

abbrev pub vendor_btwrite_proc_node : Bytes
vendor_btwrite_proc_node = codes "/proc/bluetooth/sleep/btwrite"

abbrev pub set_upio : Upio → World → World
set_upio u w = record w { upio = u }

abbrev delete_timer : World → World
delete_timer w = log (timer_delete w.upio.timer_id) w

module _ (c : Config) (e : Env) where
  unfoldable pub upio_init : World → World
  upio_init w =
      let w₁ : World = set_upio (record w.upio { wake_state = unknown; mode_state = unknown }) w in
      if c.bt_wake_via_proc
      then set_upio (record w₁.upio { btwrite_active = false; timer_created = false; timer_id = 0 })
          w₁
      else w₁

  unfoldable pub upio_cleanup : World → World
  upio_cleanup w =
      if c.bt_wake_via_proc
      then (let w₁ : World = if w.upio.timer_created then delete_timer w else w in
          set_upio (record w₁.upio { timer_created = false }) w₁)
      else w

  unfoldable pub upio_start_stop_timer : Action → World → World
  upio_start_stop_timer action w =
      if same action assert
      then (let w₁ : World = set_upio (record w.upio { btwrite_active = true }) w in
          let ms : ℕ = c.proc_btwrite_timer_timeout_ms in
          let ts : TimerSpec =
            if w.upio.timer_created
            then armed (ms / 1000) (1_000_000 * (ms % 1000))
            else uninitialised in
          log (timer_settime w.upio.timer_id ts) w₁)
      else log (timer_settime w.upio.timer_id disarmed) w

  -- `timer_create`, in `upio_set` after the node of the low power mode is written.
  create_timer : World → World
  create_timer w =
      let r : Option ℕ = e.timer_answer w.trace in
      let w₁ : World = log (timer_create r) w in
      elim r [
        | none ↦ w₁
        | some n ↦ set_upio (record w₁.upio { timer_created = true; timer_id = n }) w₁
      ]

  -- `case UPIO_LPM_MODE` behind `open`.
  write_lpm_node : Action → ℕ → World → World
  unfolding create_timer
  write_lpm_node action fd w =
      let up : Bool = same action assert in
      let w₁ : World =
        if not up && w.upio.timer_created
        then (let v : World = delete_timer w in
            set_upio (record v.upio { timer_created = false }) v)
        else w in
      let buffer : Bytes = (if up then b'1' else b'0') ∷ [] in
      let written : Bool = e.write_answer w₁.trace fd buffer in
      let w₂ : World = log (write_file fd buffer written) w₁ in
      let w₃ : World =
        if written
          && (not (c.proc_btwrite_timer_timeout_ms == 0) && (up && not w₂.upio.timer_created))
        then create_timer w₂
        else w₂ in
      log (close_file fd) w₃

  unfoldable pub set_lpm_mode : Action → World → World
  unfolding write_lpm_node
  set_lpm_mode action w =
      if same w.upio.mode_state action
      then w
      else (let w₁ : World = set_upio (record w.upio { mode_state = action }) w in
          if c.bt_wake_via_proc
          then (let (w₂, fd) = call_open e vendor_lpm_proc_node w₁ in
              elim fd [ none ↦ w₂ | some n ↦ write_lpm_node action n w₂ ])
          else w₁)

  -- `case UPIO_BT_WAKE` behind `open`.
  write_btwrite_node : Action → ℕ → World → World
  unfolding upio_start_stop_timer
  write_btwrite_node action fd w =
      let notify : Bool = c.bt_wake_via_proc_notify_deassert in
      let buffer : Bytes = (if notify && same action deassert then b'0' else b'1') ∷ [] in
      let written : Bool = e.write_answer w.trace fd buffer in
      let w₁ : World = log (write_file fd buffer written) w in
      let w₂ : World =
        if written && not (c.proc_btwrite_timer_timeout_ms == 0)
        then upio_start_stop_timer action w₁
        else w₁ in
      let w₃ : World =
        if notify then set_upio (record w₂.upio { btwrite_active = true }) w₂ else w₂ in
      log (close_file fd) w₃

  unfoldable pub set_bt_wake : Action → World → World
  unfolding write_btwrite_node userial_vendor_ioctl
  set_bt_wake action w =
      if same w.upio.wake_state action && (not c.bt_wake_via_proc || w.upio.btwrite_active)
      then w
      else (let w₁ : World = set_upio (record w.upio { wake_state = action }) w in
          if c.bt_wake_via_userial_ioctl
          then userial_vendor_ioctl c e
              (if same action assert then bt_wake_assert else bt_wake_deassert) w₁
          else if c.bt_wake_via_proc
          then (if not c.bt_wake_via_proc_notify_deassert && same action deassert
              then w₁
              else (let (w₂, fd) = call_open e vendor_btwrite_proc_node w₁ in
                  elim fd [ none ↦ w₂ | some n ↦ write_btwrite_node action n w₂ ]))
          else w₁)

  -- `upio_set`; the polarity is not read.
  unfoldable pub upio_set : Pio → Action → ℕ → World → World
  unfolding set_lpm_mode set_bt_wake
  upio_set Pio.lpm_mode action polarity w = set_lpm_mode action w
  upio_set Pio.bt_wake action polarity w = set_bt_wake action w
  upio_set Pio.host_wake action polarity w = w

  -- The body of the timer's thread, which is compiled in with BT_WAKE_VIA_PROC.
  unfoldable pub proc_btwrite_timeout : World → World
  unfolding upio_set
  proc_btwrite_timeout w =
      upio_set Pio.bt_wake deassert 1 (set_upio (record w.upio { btwrite_active = false }) w)
