-- ===== src/Upio/Files.antt =====
-- `upio_set` closes each node that it opens, and repeats nothing.
use myir_bluetooth.Common.{ℕ, ◌+◌, false, ◌≡◌, ◌⊎◌, arith}
use myir_bluetooth.Config.{Config}
use myir_bluetooth.Ledger.{opens, closes}
use myir_bluetooth.Platform.{Env}
use myir_bluetooth.Upio.Signal.{set_lpm_mode, set_bt_wake, upio_set}
use myir_bluetooth.World.{World, Pio, Action}

-- From `w` to `w'` as many files were opened as closed.
abbrev pub SameFiles : World → World → Type 0
SameFiles w w' = opens w'.trace + closes w.trace ≡ closes w'.trace + opens w.trace

module _ (c : Config) (e : Env) where
  set_lpm_mode-SameFiles : (a : Action) (w : World) → SameFiles w (set_lpm_mode c e a w)
  unfolding set_lpm_mode
  set_lpm_mode-SameFiles a w = ground arith

  set_bt_wake-SameFiles : (a : Action) (w : World) → SameFiles w (set_bt_wake c e a w)
  unfolding set_bt_wake
  set_bt_wake-SameFiles a w = ground arith

  -- On every branch, a refused `open` and a failed `write` included, `upio_set` closes as many
  -- files as it opens, and it leaves the serial port's descriptor and the configuration of the
  -- controller alone.
  pub upio_set-SameFiles :
      (p : Pio) (a : Action) (polarity : ℕ) (w : World)
      → let w' = upio_set c e p a polarity w in
        SameFiles w w' × (w'.serial ≡ w.serial) × (w'.hw ≡ w.hw) × (w'.cbacks ≡ w.cbacks)
  unfolding upio_set
  upio_set-SameFiles Pio.lpm_mode a polarity w = ground arith
  upio_set-SameFiles Pio.bt_wake a polarity w = ground arith
  upio_set-SameFiles Pio.host_wake a polarity w = ground arith

  -- Setting the low power mode twice to one action is setting it once, and so is setting BT_WAKE
  -- where it is not driven by a proc node.
  pub upio_set_twice :
      (p : Pio) (a : Action) (x y : ℕ) (w : World)
      → (p ≡ Pio.lpm_mode) ⊎ (c.bt_wake_via_proc ≡ false)
      → upio_set c e p a y (upio_set c e p a x w) ≡ upio_set c e p a x w
  unfolding upio_set
  upio_set_twice p a x y w h = ground arith

  -- The recorded state of the signal that is set becomes the action, and that of the other signal
  -- stays; HOST_WAKE sets neither.
  pub upio_set_states :
      (a : Action) (x : ℕ) (w : World)
      → ((upio_set c e Pio.lpm_mode a x w).upio.mode_state ≡ a)
        × ((upio_set c e Pio.lpm_mode a x w).upio.wake_state ≡ w.upio.wake_state)
        × ((upio_set c e Pio.bt_wake a x w).upio.wake_state ≡ a)
        × ((upio_set c e Pio.bt_wake a x w).upio.mode_state ≡ w.upio.mode_state)
        × (upio_set c e Pio.host_wake a x w ≡ w)
  unfolding upio_set
  upio_set_states a x w = ground arith
