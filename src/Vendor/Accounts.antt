-- ===== src/Vendor/Accounts.antt =====
-- What each entry point of the library does to the counts of its calls.
use myir_bluetooth.Common.{
  ℕ, zero, suc, ◌+◌, ◌≤◌, Bool, false, some, ◌≡◌, inl, inr, arith, Option-cases, Bool-cases, ◌∙◌,
}
use myir_bluetooth.Config.{Config}
use myir_bluetooth.Hardware.Sleep.{Silent, upio_lpm-Silent}
use myir_bluetooth.Ledger.{
  allocs, deallocs, sends, fw_reports, other_reports, timers_made, timers_deleted, takes, gives,
}
use myir_bluetooth.Platform.{Env, Trace}
use myir_bluetooth.Upio.Signal.{set_lpm_mode, set_bt_wake, upio_set, proc_btwrite_timeout, set_upio}
use myir_bluetooth.Hardware.Lpm.{hw_lpm_set_wake_state}
use myir_bluetooth.Upio.Power.{
  scan_rfkill, read_type, type_path, init_rfkill, write_power, power_by_rfkill,
  upio_set_bluetooth_power, is_emulator_context, is_rfkill_disabled, is_property_one,
  upio_bt_power_off, upio_bt_power_on,
}
use myir_bluetooth.Vendor.Interface.{power}
use myir_bluetooth.Upio.Timers.{bit}
use myir_bluetooth.World.{World, Action, Pio, deassert, call_open}

-- Outcomes of any request that the stack was told.
abbrev pub outcomes : Trace → ℕ
outcomes t = fw_reports t + other_reports t

-- From `w` to `w'`, with `asked` requests made and `answered` replies delivered: each leads to at
-- most one command or outcome, no more buffers are given away than were received, the buffer at `a`
-- not more often than it was received, by the allocator or as one of `freed` events, and
-- `timer_created` follows the timers.
pub record Accounted (a freed asked answered : ℕ) (w w' : World) : Type 0 where
  pub outcome :
      sends w'.trace + outcomes w'.trace ≤ sends w.trace + outcomes w.trace + asked + answered
  pub buffers :
      sends w'.trace + deallocs w'.trace + allocs w.trace
      ≤ sends w.trace + deallocs w.trace + allocs w'.trace + answered
  pub owned : gives a w'.trace + takes a w.trace ≤ gives a w.trace + takes a w'.trace + freed
  pub growing : sends w.trace ≤ sends w'.trace
  pub telling : outcomes w.trace ≤ outcomes w'.trace
  pub timers :
      timers_made w'.trace + timers_deleted w.trace + bit w.upio.timer_created
      ≡ timers_made w.trace + timers_deleted w'.trace + bit w'.upio.timer_created
  pub callbacks : w'.cbacks ≡ w.cbacks
  pub path : w'.hw.fw_patchfile_path ≡ w.hw.fw_patchfile_path
  pub name : w'.hw.fw_patchfile_name ≡ w.hw.fw_patchfile_name

-- The same with the control block of the configuration left alone.
abbrev pub Beside : ℕ → ℕ → ℕ → ℕ → World → World → Type 0
Beside a freed asked answered w w' = Accounted a freed asked answered w w' × (w'.hw ≡ w.hw)

pub Beside-append :
    (a f g k l m n : ℕ) (u v w : World)
    → Beside a f k m u v
    → Beside a g l n v w
    → Beside a (f + g) (k + l) (m + n) u w
Beside-append a f g k l m n u v w (h, x) (j, y) = (ground arith, y ∙ x)

module _ (c : Config) (e : Env) (a : ℕ) where
  lpm_mode_owned :
      (action : Action) (w : World)
      → (gives a (set_lpm_mode c e action w).trace ≡ gives a w.trace)
        × (takes a (set_lpm_mode c e action w).trace ≡ takes a w.trace)
  unfolding set_lpm_mode
  lpm_mode_owned action w = ground arith

  lpm_mode_timed :
      (action : Action) (w : World)
      → let w' = set_lpm_mode c e action w in
        (timers_made w'.trace + timers_deleted w.trace + bit w.upio.timer_created
          ≡ timers_made w.trace + timers_deleted w'.trace + bit w'.upio.timer_created)
        × (w'.hw ≡ w.hw)
  unfolding set_lpm_mode
  lpm_mode_timed action w = ground arith

  lpm_mode-Beside : (action : Action) (w : World) → Beside a 0 0 0 w (set_lpm_mode c e action w)
  unfolding upio_set
  lpm_mode-Beside action w =
      let silent : Silent w (set_lpm_mode c e action w) = upio_lpm-Silent c e action w in
      ground (arith, lpm_mode_owned action w, lpm_mode_timed action w)

  bt_wake-Beside : (action : Action) (w : World) → Beside a 0 0 0 w (set_bt_wake c e action w)
  unfolding set_bt_wake
  bt_wake-Beside action w = ground arith

  pub upio_set-Beside :
      (p : Pio) (action : Action) (polarity : ℕ) (w : World)
      → Beside a 0 0 0 w (upio_set c e p action polarity w)
  unfolding upio_set
  upio_set-Beside Pio.lpm_mode action polarity w = lpm_mode-Beside action w
  upio_set-Beside Pio.bt_wake action polarity w = bt_wake-Beside action w
  upio_set-Beside Pio.host_wake action polarity w = ground arith

  pub wake_state-Beside :
      (on : Bool) (w : World) → Beside a 0 0 0 w (hw_lpm_set_wake_state c e on w)
  unfolding hw_lpm_set_wake_state
  wake_state-Beside on w = upio_set-Beside Pio.bt_wake _ _ w

  pub timeout-Beside : (w : World) → Beside a 0 0 0 w (proc_btwrite_timeout c e w)
  unfolding proc_btwrite_timeout
  timeout-Beside w =
      let u : World = set_upio (record w.upio { btwrite_active = false }) w in
      Beside-append a 0 0 0 0 0 0 w u _ (ground arith) (upio_set-Beside Pio.bt_wake deassert 1 u)

  -- The search for the rfkill node, the power, and BT_VND_OP_POWER_CTRL.
  scan_rfkill-Beside :
      (fuel id : ℕ) (w : World) {r : World × Bool}
      → scan_rfkill e fuel id w ≡ some r
      → Beside a 0 0 0 w r.0
  unfolding scan_rfkill read_type
  scan_rfkill-Beside zero id w h = absurd (ground arith)
  scan_rfkill-Beside (suc fuel) id w {r} h =
      elim (Option-cases (e.open_answer w.trace (type_path e id))) [
        | inl gone ↦ ground arith
        | inr (n, here) ↦
            let u : World = (call_open e (type_path e id) w).0 in
            let v : World = (read_type e n u).0 in
            elim (Bool-cases (read_type e n u).1) [
              | inl found ↦ ground arith
              | inr other ↦
                  Beside-append a 0 0 0 0 0 0 w v r.0 (ground arith)
                    (scan_rfkill-Beside fuel (suc id) v {r = r} (ground arith))
            ]
      ]

  init_rfkill-Beside :
      (fuel : ℕ) (w : World) {r : World × Bool}
      → init_rfkill e fuel w ≡ some r
      → Beside a 0 0 0 w r.0
  unfolding init_rfkill is_rfkill_disabled is_property_one
  init_rfkill-Beside fuel w {r} h =
      let d : World × Bool = is_rfkill_disabled e w in
      elim (Bool-cases d.1) [
        | inl off ↦ ground arith
        | inr on ↦
            Beside-append a 0 0 0 0 0 0 w d.0 r.0 (ground arith)
              (scan_rfkill-Beside fuel 0 d.0 {r = r} (ground arith))
      ]

  write_power-Beside : (on : ℕ) (w : World) → Beside a 0 0 0 w (write_power e on w).0
  unfolding write_power
  write_power-Beside on w = ground arith

  rfkill-Beside :
      (fuel on : ℕ) (w : World) {r : World × Bool}
      → power_by_rfkill e fuel on w ≡ some r
      → Beside a 0 0 0 w r.0
  unfolding power_by_rfkill
  rfkill-Beside fuel on w {r} h = elim (Option-cases w.upio.rfkill_id) [
    | inl unknown ↦ elim (Option-cases (init_rfkill e fuel w)) [
      | inl out ↦ absurd (ground arith)
      | inr ((v, found), first) ↦
          let b : Beside a 0 0 0 w v = init_rfkill-Beside fuel w first in
          elim (Bool-cases found) [
            | inl there ↦
                Beside-append a 0 0 0 0 0 0 w v r.0 b (ground (arith, write_power-Beside on v))
            | inr lost ↦ ground arith
          ]
    ]
    | inr (id, known) ↦ ground (arith, write_power-Beside on w)
  ]

  set_power-Beside :
      (fuel on : ℕ) (w : World) {r : World × Bool}
      → upio_set_bluetooth_power e fuel on w ≡ some r
      → Beside a 0 0 0 w r.0
  unfolding upio_set_bluetooth_power is_emulator_context is_rfkill_disabled is_property_one
  set_power-Beside fuel on w {r} h =
      let q : World × Bool = is_emulator_context e w in
      let d : World × Bool = is_rfkill_disabled e q.0 in
      elim (Bool-cases q.1) [
        | inl emulated ↦ ground arith
        | inr real ↦ elim (Bool-cases d.1) [
          | inl off ↦ ground arith
          | inr enabled ↦
              Beside-append a 0 0 0 0 0 0 w d.0 r.0 (ground arith)
                (rfkill-Beside fuel on d.0 {r = r} (ground arith))
        ]
      ]

  pub power-Beside :
      (fuel : ℕ) (on : Bool) (w : World) {w' : World}
      → power c e fuel on w ≡ some w'
      → Beside a 0 0 0 w w'
  unfolding power
  power-Beside fuel on w {w'} h =
      elim (Option-cases (upio_set_bluetooth_power e fuel upio_bt_power_off w)) [
        | inl out ↦ absurd (ground arith)
        | inr ((v, _), first) ↦
            let b : Beside a 0 0 0 w v = set_power-Beside fuel upio_bt_power_off w first in
            elim (Bool-cases on) [
              | inl up ↦ elim (Option-cases (upio_set_bluetooth_power e fuel upio_bt_power_on v)) [
                | inl out ↦ absurd (ground arith)
                | inr ((u, _), second) ↦
                    Beside-append a 0 0 0 0 0 0 w v w' b
                      (ground (arith, set_power-Beside fuel upio_bt_power_on v second))
              ]
              | inr down ↦
                  Beside-append a 0 0 0 0 0 0 w v w' b (ground (arith, wake_state-Beside false v))
            ]
      ]
