-- ===== src/Vendor/Formats.antt =====
-- The layout of the commands over a whole session.
use myir_bluetooth.Common.{
  ℕ, zero, suc, Bool, false, some, ◌≡◌, arith, Bool-cases, Option-cases, inl, inr,
}
use myir_bluetooth.Config.{Config}
use myir_bluetooth.Hardware.Formats.{read_more, Formed}
use myir_bluetooth.Hardware.Formats.Audio.{upio_set-Formed}
use myir_bluetooth.Hardware.Lpm.{hw_lpm_set_wake_state}
use myir_bluetooth.Platform.{Env}
use myir_bluetooth.Upio.Power.{
  type_path, is_property_one, is_emulator_context, is_rfkill_disabled, read_type, scan_rfkill,
  init_rfkill, write_power, power_by_rfkill, upio_set_bluetooth_power, upio_bt_power_off,
  upio_bt_power_on,
}
use myir_bluetooth.Vendor.Interface.{power}
use myir_bluetooth.World.{World, Pio, call_open}

Formed-trans : (u v w : World) → Formed u v → Formed v w → Formed u w
Formed-trans u v w p q = omega (arith, p, q)

module _ (c : Config) (e : Env) where
  wake_state-Formed : (on : Bool) (w : World) → Formed w (hw_lpm_set_wake_state c e on w)
  unfolding hw_lpm_set_wake_state
  wake_state-Formed on w = upio_set-Formed c e Pio.bt_wake _ _ w

  -- The search for the rfkill node, the power, and BT_VND_OP_POWER_CTRL.
  read_type-Formed : (fd : ℕ) (w : World) → Formed w (read_type e fd w).0
  unfolding read_type
  read_type-Formed fd w = omega (arith, read_more fd 16 (e.read_answer w.trace fd 16) w)

  scan_rfkill-Formed :
      (fuel id : ℕ) (w : World) {r : World × Bool} → scan_rfkill e fuel id w ≡ some r → Formed w r.0
  unfolding scan_rfkill
  scan_rfkill-Formed zero id w h = absurd (ground arith)
  scan_rfkill-Formed (suc fuel) id w {r} h =
      elim (Option-cases (e.open_answer w.trace (type_path e id))) [
        | inl gone ↦ ground arith
        | inr (n, here) ↦
            let u : World = (call_open e (type_path e id) w).0 in
            let v : World = (read_type e n u).0 in
            elim (Bool-cases (read_type e n u).1) [
              | inl found ↦ ground (arith, read_type-Formed n u)
              | inr other ↦
                  Formed-trans w v r.0 (omega (arith, read_type-Formed n u))
                    (scan_rfkill-Formed fuel (suc id) v {r = r} (ground arith))
            ]
      ]

  init_rfkill-Formed :
      (fuel : ℕ) (w : World) {r : World × Bool} → init_rfkill e fuel w ≡ some r → Formed w r.0
  unfolding init_rfkill is_rfkill_disabled is_property_one
  init_rfkill-Formed fuel w {r} h =
      let d : World × Bool = is_rfkill_disabled e w in
      elim (Bool-cases d.1) [
        | inl off ↦ ground arith
        | inr on ↦
            Formed-trans w d.0 r.0 (ground arith)
              (scan_rfkill-Formed fuel 0 d.0 {r = r} (ground arith))
      ]

  write_power-Formed : (on : ℕ) (w : World) → Formed w (write_power e on w).0
  unfolding write_power
  write_power-Formed on w = ground arith

  rfkill-Formed :
      (fuel on : ℕ) (w : World) {r : World × Bool}
      → power_by_rfkill e fuel on w ≡ some r
      → Formed w r.0
  unfolding power_by_rfkill
  rfkill-Formed fuel on w {r} h = elim (Option-cases w.upio.rfkill_id) [
    | inl unknown ↦ elim (Option-cases (init_rfkill e fuel w)) [
      | inl out ↦ absurd (ground arith)
      | inr ((v, found), first) ↦
          let b : Formed w v = init_rfkill-Formed fuel w first in
          elim (Bool-cases found) [
            | inl there ↦ Formed-trans w v r.0 b (ground (arith, write_power-Formed on v))
            | inr lost ↦ ground arith
          ]
    ]
    | inr (id, known) ↦ ground (arith, write_power-Formed on w)
  ]

  set_power-Formed :
      (fuel on : ℕ) (w : World) {r : World × Bool}
      → upio_set_bluetooth_power e fuel on w ≡ some r
      → Formed w r.0
  unfolding upio_set_bluetooth_power is_emulator_context is_rfkill_disabled is_property_one
  set_power-Formed fuel on w {r} h =
      let q : World × Bool = is_emulator_context e w in
      let d : World × Bool = is_rfkill_disabled e q.0 in
      elim (Bool-cases q.1) [
        | inl emulated ↦ ground arith
        | inr real ↦ elim (Bool-cases d.1) [
          | inl off ↦ ground arith
          | inr enabled ↦
              Formed-trans w d.0 r.0 (ground arith)
                (rfkill-Formed fuel on d.0 {r = r} (ground arith))
        ]
      ]

  pub power-Formed :
      (fuel : ℕ) (on : Bool) (w : World) {w' : World} → power c e fuel on w ≡ some w' → Formed w w'
  unfolding power
  power-Formed fuel on w {w'} h =
      elim (Option-cases (upio_set_bluetooth_power e fuel upio_bt_power_off w)) [
        | inl out ↦ absurd (ground arith)
        | inr ((v, _), first) ↦
            let b : Formed w v = set_power-Formed fuel upio_bt_power_off w first in
            elim (Bool-cases on) [
              | inl up ↦ elim (Option-cases (upio_set_bluetooth_power e fuel upio_bt_power_on v)) [
                | inl out ↦ absurd (ground arith)
                | inr ((u, _), second) ↦
                    Formed-trans w v w' b
                      (ground (arith, set_power-Formed fuel upio_bt_power_on v second))
              ]
              | inr down ↦ Formed-trans w v w' b (ground (arith, wake_state-Formed false v))
            ]
      ]
