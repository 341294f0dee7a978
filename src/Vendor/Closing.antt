-- ===== src/Vendor/Closing.antt =====
-- What a session gets from its requests on the low power mode and at its end.
use myir_bluetooth.Common.{
  Bool, ℕ, ◌∷◌, [], true, false, some, List, ◌++◌, Bytes, ◌≡◌, refl, arith, inl, inr, Bool-cases,
  if◌then◌else◌,
}
use mathlib.Core.Path.{subst}
use myir_bluetooth.Config.{Config}
use myir_bluetooth.Hardware.Hci.{hci_reset, bare_command}
use myir_bluetooth.Hardware.Lpm.{hw_epilog_process}
use myir_bluetooth.Ledger.{lpm_reports, epilog_reports}
use myir_bluetooth.Link.Idle.{Slept, Ended, mode_signal, reset_exchange}
use myir_bluetooth.Link.Peers.{Willing, Controller, commands, turns}
use myir_bluetooth.Platform.{Env, OpResult, epilog_cb}
use myir_bluetooth.Vendor.Interface.{Reply, done, value, lpm_set_mode, epilog, op}
use myir_bluetooth.Vendor.Service.{Serves, serve}
use myir_bluetooth.Vendor.Sessions.{Step, asked, Session, ask, Sound, Session-Sound}
use myir_bluetooth.World.{World, log}

-- The command of the epilog, if the build ends with HCI_RESET.
abbrev pub epilog_commands : Config → List Bytes
epilog_commands c = if c.hw_end_with_hci_reset then (bare_command hci_reset).bytes ∷ [] else []

-- The sleep mode command: opcode 0xFC27, 12 parameters, and those of the configuration, or zeros.
abbrev pub sleep_mode_bytes : Config → Bool → Bytes
sleep_mode_bytes c true =
    0x27 ∷ 0xFC ∷ 12 ∷ c.lpm.sleep_mode ∷ c.lpm.host_stack_idle_threshold
    ∷ c.lpm.host_controller_idle_threshold ∷ c.lpm.bt_wake_polarity ∷ c.lpm.host_wake_polarity
    ∷ c.lpm.allow_host_sleep_during_sco ∷ c.lpm.combine_sleep_mode_and_lpm
    ∷ c.lpm.enable_uart_txd_tri_state ∷ c.lpm.sleep_guard_time ∷ c.lpm.wakeup_guard_time
    ∷ c.lpm.txd_config ∷ c.lpm.pulsed_host_wake ∷ []
sleep_mode_bytes c false = 0x27 ∷ 0xFC ∷ 12 ∷ 0 ∷ 0 ∷ 0 ∷ 0 ∷ 0 ∷ 0 ∷ 0 ∷ 0 ∷ 0 ∷ 0 ∷ 0 ∷ 0 ∷ []

module _ (c : Config) (e : Env) (up : Willing e) (k : Controller) where
  abbrev Sets : Bool → List Step → World → ℕ → Bytes → Type 0
  Sets on h w fuel bytes =
      Serves c e k h fuel (lpm_set_mode on) w (value 1) (bytes ∷ [])
        (Slept (lpm_reports w.trace) (mode_signal on) (bytes ∷ commands w.trace))

  epilog_resets :
      (h : List Step) (w : World) (fuel : ℕ)
      → Session c e true h w
      → c.hw_end_with_hci_reset ≡ true
      → Serves c e k h fuel epilog w
          (value 0)
          ((bare_command hci_reset).bytes ∷ [])
          (Ended (epilog_reports w.trace) ((bare_command hci_reset).bytes ∷ commands w.trace))
  unfolding op
  epilog_resets h w fuel session resets =
      let s : Sound c true h w = Session-Sound c e true h w session in
      let (one, w', x, ended) = reset_exchange c e up k w s.callbacks in
      serve c e k h fuel epilog w w' (done (hw_epilog_process c e w)) 0
        ((bare_command hci_reset).bytes ∷ []) session (ground arith) refl one x (omega arith) ended

  epilog_quiet :
      (h : List Step) (w : World) (fuel : ℕ)
      → Session c e true h w
      → c.hw_end_with_hci_reset ≡ false
      → Serves c e k h fuel epilog w
          (value 0)
          []
          (Ended (epilog_reports w.trace) (commands w.trace))
  unfolding op turns
  epilog_quiet h w fuel session quiet =
      let s : Sound c true h w = Session-Sound c e true h w session in
      let r : Reply = done (log (epilog_cb OpResult.success) w) in
      let on = s.callbacks in
      let ran : op c e fuel epilog w ≡ some r = ground arith in
      (
        r,
        ran,
        refl,
        r.world,
        refl,
        record { told = omega arith; good = refl; logged = refl },
        asked epilog ∷ h,
        ask h w fuel epilog r session ran,
        omega arith,
        omega arith,
      )

  abbrev Closes : List Step → World → ℕ → List Bytes → Type 0
  Closes h w fuel sent =
      Serves c e k h fuel epilog w (value 0) sent
        (Ended (epilog_reports w.trace) (sent ++ commands w.trace))

  -- At each point of a session between `init` and `cleanup`, BT_VND_OP_EPILOG: it returns 0; with
  -- one reply for each command, the stack carries exactly one reset, or nothing if the build does
  -- not end with HCI_RESET, the stack was told once of the success, and the session goes on. The
  -- stack is willing and each command completes with status 0.
  pub epilog_lem :
      (h : List Step) (w : World) (fuel : ℕ)
      → Session c e true h w
      → Serves c e k h fuel epilog w
          (value 0)
          (epilog_commands c)
          (Ended (epilog_reports w.trace) (epilog_commands c ++ commands w.trace))
  epilog_lem h w fuel session = elim (Bool-cases c.hw_end_with_hci_reset) [
    | inl resets ↦
        let same : (bare_command hci_reset).bytes ∷ [] ≡ epilog_commands c = ground arith in
        subst (Closes h w fuel) same (epilog_resets h w fuel session resets)
    | inr quiet ↦
        let same : [] ≡ epilog_commands c = ground arith in
        subst (Closes h w fuel) same (epilog_quiet h w fuel session quiet)
  ]
