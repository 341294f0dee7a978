-- ===== src/Link/Idle.antt =====
-- The commands on the low power mode and at the end of a session, each with its reply.
use myir_bluetooth.Common.{
  ℕ, ◌+◌, Bool, true, Option, none, some, List, [], ◌∷◌, Bytes, ◌≡◌, refl, arith, if◌then◌else◌,
}
use myir_bluetooth.Config.{Config}
use myir_bluetooth.Hardware.Hci.{
  hci_cmd_preamble_size, hci_reset, hci_vsc_write_sleep_mode, bare_command,
}
use myir_bluetooth.Hardware.Lpm.{
  lpm_cmd_param_size, hw_lpm_enable, send_sleep_mode, sleep_command, lpm_refused, hw_lpm_ctrl_cback,
  hw_epilog_process, hw_epilog_cback,
}
use myir_bluetooth.Hardware.Sleep.{upio_lpm-Silent}
use myir_bluetooth.Ledger.{sends, lpm_reports, epilog_reports}
use myir_bluetooth.Link.Peers.{
  Exchanged, Willing, Controller, commands, last_sent, deliver, turn, turns,
}
use myir_bluetooth.Platform.{Env, Trace, Cback, OpResult, lpm_cb, epilog_cb, dealloc}
use myir_bluetooth.Upio.Signal.{set_lpm_mode, upio_set}
use myir_bluetooth.World.{World, Action, Pio, assert, deassert, call_alloc, log}

-- The newest outcomes that the stack was told.
abbrev pub last_lpm : Trace → Option OpResult
last_lpm [] = none
last_lpm (lpm_cb r ∷ t) = some r
last_lpm (_ ∷ t) = last_lpm t

abbrev pub last_epilog : Trace → Option OpResult
last_epilog [] = none
last_epilog (epilog_cb r ∷ t) = some r
last_epilog (_ ∷ t) = last_epilog t

-- What a finished change of the low power mode leaves, and a finished epilog.
pub record Slept (reports : ℕ) (mode : Action) (sent : List Bytes) (w : World) : Type 0 where
  pub told : lpm_reports w.trace ≡ reports + 1
  pub good : last_lpm w.trace ≡ some OpResult.success
  pub signal : w.upio.mode_state ≡ mode
  pub logged : commands w.trace ≡ sent

pub record Ended (reports : ℕ) (sent : List Bytes) (w : World) : Type 0 where
  pub told : epilog_reports w.trace ≡ reports + 1
  pub good : last_epilog w.trace ≡ some OpResult.success
  pub logged : commands w.trace ≡ sent

-- The signal that goes with a mode.
abbrev pub mode_signal : Bool → Action
mode_signal on = if on then assert else deassert

lpm_signal :
    (c : Config) (e : Env) (a : Action) (w : World)
    → (commands (upio_set c e Pio.lpm_mode a 0 w).trace ≡ commands w.trace)
      × ((upio_set c e Pio.lpm_mode a 0 w).upio.mode_state ≡ a)
unfolding upio_set set_lpm_mode
lpm_signal c e Action.unknown w = ground arith
lpm_signal c e Action.deassert w = ground arith
lpm_signal c e Action.assert w = ground arith

-- The command was accepted in `u`, from `w`, and its reply is due.
pub record Asked (opcode : ℕ) (back : Cback) (bytes : Bytes) (w u : World) : Type 0 where
  pub one : sends u.trace ≡ sends w.trace + 1
  pub last : last_sent u.trace ≡ some (opcode, back)
  pub logged : commands u.trace ≡ bytes ∷ commands w.trace
  pub lpm_untold : lpm_reports u.trace ≡ lpm_reports w.trace
  pub callbacks : u.cbacks ≡ true

module _ (c : Config) (e : Env) (up : Willing e) where
  open up use {given, accepts}

  sleep_mode_sent :
      (a : Action) (on : Bool) (addr : ℕ) (w : World)
      → w.cbacks ≡ true
      → a ≡ mode_signal on
      → let r = send_sleep_mode c e on addr w in
        (r.1 ≡ true)
        × (r.0.upio.mode_state ≡ a)
        × Asked hci_vsc_write_sleep_mode Cback.lpm_ctrl (sleep_command c e on).bytes w r.0
  unfolding send_sleep_mode
  sleep_mode_sent a on addr w cb at =
      let u : World = upio_set c e Pio.lpm_mode a 0 w in
      let willing = accepts u.trace hci_vsc_write_sleep_mode (sleep_command c e on) in
      ground (arith, lpm_signal c e a w, upio_lpm-Silent c e a w)

  pub sleep_sent :
      (on : Bool) (w : World)
      → w.cbacks ≡ true
      → let r = hw_lpm_enable c e on w in
        (r.1 ≡ true)
        × (r.0.upio.mode_state ≡ mode_signal on)
        × Asked hci_vsc_write_sleep_mode Cback.lpm_ctrl (sleep_command c e on).bytes w r.0
  unfolding hw_lpm_enable lpm_refused
  sleep_sent on w cb =
      let size : ℕ = e.bt_hc_hdr_size + hci_cmd_preamble_size + lpm_cmd_param_size in
      let got = given w.trace size in
      let v : World = (call_alloc e size w).0 in
      let addr : ℕ = up.buffer w.trace size in
      let r = send_sleep_mode c e on addr v in
      let (yes_sent, signal, asked) = sleep_mode_sent (mode_signal on) on addr v cb refl in
      let same : hw_lpm_enable c e on w ≡ r = ground arith in
      rw same (yes_sent, signal, ground arith)

  pub reset_sent :
      (w : World)
      → w.cbacks ≡ true
      → let u = hw_epilog_process c e w in
        (sends u.trace ≡ sends w.trace + 1)
        × (last_sent u.trace ≡ some (hci_reset, Cback.epilog))
        × (commands u.trace ≡ (bare_command hci_reset).bytes ∷ commands w.trace)
        × (epilog_reports u.trace ≡ epilog_reports w.trace)
        × (u.cbacks ≡ true)
  unfolding hw_epilog_process
  reset_sent w cb =
      let size : ℕ = e.bt_hc_hdr_size + hci_cmd_preamble_size in
      let got = given w.trace size in
      let v : World = (call_alloc e size w).0 in
      let willing = accepts v.trace hci_reset (bare_command hci_reset) in ground arith

module _ (c : Config) (e : Env) (up : Willing e) (k : Controller) where
  open k use {reply, success, echo}

  sleep_reply :
      (on : Bool) (w u : World)
      → u.upio.mode_state ≡ mode_signal on
      → Asked hci_vsc_write_sleep_mode Cback.lpm_ctrl (sleep_command c e on).bytes w u
      → (w' : World) × Exchanged c e k 0 u w'
        × Slept
            (lpm_reports w.trace)
            (mode_signal on)
            ((sleep_command c e on).bytes ∷ commands w.trace)
            w'
  unfolding turn turns deliver hw_lpm_ctrl_cback
  sleep_reply on w u signal asked =
      let opcode : ℕ = hci_vsc_write_sleep_mode in
      let good = success opcode in
      let w' : World = log (dealloc (reply opcode).addr) (log (lpm_cb OpResult.success) u) in
      let ran : turn c e k u ≡ some w' = ground arith in
      (w', record { before = u; ran = refl; sent = omega arith; last = ran }, ground arith)

  -- The world with the command sent, and the one with its outcome told.
  pub sleep_exchange :
      (on : Bool) (w : World)
      → w.cbacks ≡ true
      → let r = hw_lpm_enable c e on w in
        (r.1 ≡ true)
        × (sends r.0.trace ≡ sends w.trace + 1)
        × (w' : World) × Exchanged c e k 0 r.0 w'
        × Slept
            (lpm_reports w.trace)
            (mode_signal on)
            ((sleep_command c e on).bytes ∷ commands w.trace)
            w'
  sleep_exchange on w cb =
      let (taken, signal, asked) = sleep_sent c e up on w cb in
      let (w', x, slept) = sleep_reply on w _ signal asked in (taken, asked.one, w', x, slept)

  pub reset_exchange :
      (w : World)
      → w.cbacks ≡ true
      → let u = hw_epilog_process c e w in
        (sends u.trace ≡ sends w.trace + 1)
        × (w' : World) × Exchanged c e k 0 u w'
        × Ended (epilog_reports w.trace) ((bare_command hci_reset).bytes ∷ commands w.trace) w'
  unfolding turn turns deliver hw_epilog_cback
  reset_exchange w cb =
      let u : World = hw_epilog_process c e w in
      let (one, last, logged, untold, on) = reset_sent c e up w cb in
      let good = success hci_reset in
      let echoed = echo hci_reset (omega arith) in
      let w' : World = log (epilog_cb OpResult.success) (log (dealloc (reply hci_reset).addr) u) in
      let ran : turn c e k u ≡ some w' = ground arith in
      (
        one,
        w',
        record { before = u; ran = refl; sent = omega arith; last = ran },
        record { told = omega (arith, untold); good = refl; logged = logged },
      )
