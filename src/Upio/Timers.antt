-- ===== src/Upio/Timers.antt =====
-- The timer that limits how long BT_WAKE stays asserted.
use myir_bluetooth.Common.{ℕ, ◌+◌, Bool, true, false, some, ◌≡◌, ◌≢◌, ◌∷◌, [], arith}
use myir_bluetooth.Config.{Config}
use myir_bluetooth.Ledger.{timers_made, timers_deleted}
use myir_bluetooth.Platform.{Env, timer_settime, uninitialised, close_file, open_file, write_file}
use myir_bluetooth.Upio.Signal.{
  set_lpm_mode, set_bt_wake, upio_set, proc_btwrite_timeout, upio_cleanup, vendor_btwrite_proc_node,
}
use myir_bluetooth.World.{World, Pio, Action, assert, deassert}

abbrev pub bit : Bool → ℕ
bit true = 1
bit false = 0

-- The flag `timer_created` says whether one timer is alive.
pub record IsTimed (w : World) : Type 0 where
  pub alive : timers_made w.trace ≡ timers_deleted w.trace + bit w.upio.timer_created

module _ (c : Config) (e : Env) where
  set_lpm_mode-IsTimed : (a : Action) (w : World) → IsTimed w → IsTimed (set_lpm_mode c e a w)
  unfolding set_lpm_mode
  set_lpm_mode-IsTimed a w h = ground arith

  set_bt_wake-IsTimed : (a : Action) (w : World) → IsTimed w → IsTimed (set_bt_wake c e a w)
  unfolding set_bt_wake
  set_bt_wake-IsTimed a w h = ground arith

  upio_set-IsTimed :
      (p : Pio) (a : Action) (polarity : ℕ) (w : World)
      → IsTimed w
      → IsTimed (upio_set c e p a polarity w)
  unfolding upio_set
  upio_set-IsTimed Pio.lpm_mode a polarity w h = set_lpm_mode-IsTimed a w h
  upio_set-IsTimed Pio.bt_wake a polarity w h = set_bt_wake-IsTimed a w h
  upio_set-IsTimed Pio.host_wake a polarity w h = h

  upio_cleanup-IsTimed : (w : World) → IsTimed w → IsTimed (upio_cleanup c e w)
  unfolding upio_cleanup
  upio_cleanup-IsTimed w h = ground arith

  -- Whatever the system calls answer, `upio_set`, the timer's own thread and `upio_cleanup` keep
  -- `timer_created` true exactly while one timer is alive.
  pub upio-IsTimed :
      (p : Pio) (a : Action) (polarity : ℕ) (w : World)
      → IsTimed w
      → IsTimed (upio_set c e p a polarity w)
        × IsTimed (proc_btwrite_timeout c e w)
        × IsTimed (upio_cleanup c e w)
  unfolding upio_set proc_btwrite_timeout
  upio-IsTimed p a polarity w h = (
    upio_set-IsTimed p a polarity w h,
    set_bt_wake-IsTimed deassert _ (record { alive = h.alive }),
    upio_cleanup-IsTimed w h,
  )

  -- With the proc nodes compiled in, `upio_cleanup` leaves no timer alive.
  pub upio_cleanup_timers :
      (w : World)
      → c.bt_wake_via_proc ≡ true
      → IsTimed w
      → timers_made (upio_cleanup c e w).trace ≡ timers_deleted (upio_cleanup c e w).trace
  unfolding upio_cleanup
  upio_cleanup_timers w p h = ground arith

  -- With BT_WAKE driven by its proc node and a timeout configured: an assertion while no timer is
  -- alive, whose `open` and `write` succeed, hands `timer_settime` a time that was never written
  -- and the id of no timer.
  pub set_bt_wake_no_timer :
      (w : World) (fd : ℕ)
      → c.bt_wake_via_proc ≡ true
      → c.bt_wake_via_userial_ioctl ≡ false
      → c.proc_btwrite_timer_timeout_ms ≢ 0
      → w.upio.wake_state ≡ deassert
      → w.upio.timer_created ≡ false
      → IsTimed w
      → e.open_answer w.trace vendor_btwrite_proc_node ≡ some fd
      → let u = open_file vendor_btwrite_proc_node (some fd) ∷ w.trace in
        e.write_answer u fd (b'1' ∷ []) ≡ true
        → let t = (set_bt_wake c e assert w).trace in
          (timers_made t ≡ timers_deleted t)
          × (t
              ≡ close_file fd
                ∷ timer_settime w.upio.timer_id uninitialised
                ∷ write_file fd (b'1' ∷ []) true
                ∷ u)
  unfolding set_bt_wake
  set_bt_wake_no_timer w fd proc ioctl ms wake no_timer timed opened written = ground arith
