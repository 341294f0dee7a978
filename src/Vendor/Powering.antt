-- ===== src/Vendor/Powering.antt =====
-- BT_VND_OP_POWER_CTRL where the power is not switched through rfkill.
use myir_bluetooth.Common.{
  ℕ, not, Bool, true, false, some, ◌≡◌, ◌==◌, arith, codes, if◌then◌else◌, inl, inr, Option-cases,
  ◌∙◌,
}
use myir_bluetooth.Config.{Config}
use myir_bluetooth.Hardware.Lpm.{hw_lpm_set_wake_state}
use myir_bluetooth.Platform.{Env}
use myir_bluetooth.Upio.Files.{SameFiles, upio_set-SameFiles}
use myir_bluetooth.Upio.Power.{
  is_property_one, is_emulator_context, upio_set_bluetooth_power, upio_bt_power_off,
  upio_bt_power_on,
}
use myir_bluetooth.Upio.Signal.{upio_set, set_bt_wake}
use myir_bluetooth.Vendor.Interface.{power}
use myir_bluetooth.World.{World, Pio, deassert}

module _ (e : Env) where
  -- In the emulator, switching the power opens no file, takes no fuel, records the new setting,
  -- and succeeds exactly if the setting changes.
  pub upio_set_bluetooth_power_emulated :
      (fuel on : ℕ) (w : World)
      → e.property_answer w.trace (codes "ro.boot.qemu") ≡ codes "1"
      → (w' : World) × (upio_set_bluetooth_power e fuel on w
          ≡ some (w', not (w.upio.bt_emul_enable == on)))
        × (w'.upio.bt_emul_enable ≡ on)
        × SameFiles w w'
        × (w'.hw ≡ w.hw)
  unfolding upio_set_bluetooth_power is_emulator_context is_property_one
  upio_set_bluetooth_power_emulated fuel on w emulated =
      elim (Option-cases (upio_set_bluetooth_power e fuel on w)) [
        | inl stuck ↦ absurd (ground arith)
        | inr ((w', ok), at) ↦ (w', ground arith, ground arith, ground arith, ground arith)
      ]

module _ (c : Config) (e : Env) where
  bt_wake_emulated :
      (w : World) → (set_bt_wake c e deassert w).upio.bt_emul_enable ≡ w.upio.bt_emul_enable
  unfolding set_bt_wake
  bt_wake_emulated w = ground arith

  wake_state_keeps :
      (w : World)
      → let w' = hw_lpm_set_wake_state c e false w in
        (w'.upio.bt_emul_enable ≡ w.upio.bt_emul_enable) × SameFiles w w'
  unfolding hw_lpm_set_wake_state upio_set
  wake_state_keeps w =
      (bt_wake_emulated w, (upio_set-SameFiles c e Pio.bt_wake deassert c.lpm.bt_wake_polarity w).0)

  -- In the emulator, the power operation returns with any fuel and leaves the power on exactly if
  -- it was asked for, whatever it was before, and it closes as many files as it opens.
  pub power_emulated :
      (fuel : ℕ) (on : Bool) (w : World)
      → ((u : World) → e.property_answer u.trace (codes "ro.boot.qemu") ≡ codes "1")
      → (w' : World) × (power c e fuel on w ≡ some w')
        × (w'.upio.bt_emul_enable ≡ (if on then upio_bt_power_on else upio_bt_power_off))
        × SameFiles w w'
  unfolding power
  power_emulated fuel true w emulated =
      let (w₁, off, was_off, files, _) =
        upio_set_bluetooth_power_emulated e fuel upio_bt_power_off w (emulated w) in
      let (w₂, up, is_on, files', _) =
        upio_set_bluetooth_power_emulated e fuel upio_bt_power_on w₁ (emulated w₁) in
      (w₂, ground arith, is_on, omega arith)
  power_emulated fuel false w emulated =
      let (w₁, off, was_off, files, _) =
        upio_set_bluetooth_power_emulated e fuel upio_bt_power_off w (emulated w) in
      (
        hw_lpm_set_wake_state c e false w₁,
        ground arith,
        (wake_state_keeps w₁).0 ∙ was_off,
        omega (arith, (wake_state_keeps w₁).1),
      )
