-- ===== src/Hardware/Sleep.antt =====
-- What the low power mode's commands and the epilog send and report, and the idle timeout.
use myir_bluetooth.Common.{
  bind_some, ℕ, ◌+◌, ◌*◌, ◌^◌, ◌<◌, ◌≤◌, Bool, true, none, some, [], ◌∷◌, if◌then◌else◌, ◌≡◌, ◌⊎◌,
  inl, inr, arith, ap, ◌∙◌, Bytes, Option-cases,
}
use myir_bluetooth.Config.{Config}
use myir_bluetooth.Hardware.Hci.{
  hci_cmd_preamble_size, hci_reset, bare_command, evt_status, evt_opcode,
}
use myir_bluetooth.Hardware.Lpm.{
  idle_unit, uint32, hw_lpm_get_idle_timeout, hw_lpm_ctrl_cback, hw_epilog_process, hw_epilog_cback,
}
use myir_bluetooth.Ledger.{
  once_at, takes, gives, allocs, deallocs, sends, fw_reports, other_reports, lpm_reports,
  epilog_reports,
}
use myir_bluetooth.Platform.{Env, Evt, Packet, Cback, Trace, xmit}
use myir_bluetooth.Upio.Signal.{set_lpm_mode, upio_set}
use myir_bluetooth.Upio.Timers.{bit}
use myir_bluetooth.World.{World, Action, Pio, call_alloc, call_xmit}

-- From `w` to `w'` only the signals, the timer and files were used: no buffer, no command, no report.
pub record Silent (w w' : World) : Type 0 where
  pub allocs_same : allocs w'.trace ≡ allocs w.trace
  pub deallocs_same : deallocs w'.trace ≡ deallocs w.trace
  pub sends_same : sends w'.trace ≡ sends w.trace
  pub reports_same : lpm_reports w'.trace ≡ lpm_reports w.trace
  pub outcomes_same : fw_reports w'.trace ≡ fw_reports w.trace
  pub others_same : other_reports w'.trace ≡ other_reports w.trace
  pub cbacks_same : w'.cbacks ≡ w.cbacks

-- The last call was `xmit_cb` with HCI_RESET in the buffer at `addr`, and it answered `ok`.
abbrev pub Submitted : ℕ → Bool → World → Type 0
Submitted addr ok w =
    (p : Packet) × (t : Trace) × (p.bytes ≡ 3 ∷ 12 ∷ 0 ∷ [])
    × (w.trace ≡ xmit 0x0C03 addr p Cback.epilog ok ∷ t)

module _ (c : Config) (e : Env) where
  pub upio_lpm-Silent : (a : Action) (w : World) → Silent w (upio_set c e Pio.lpm_mode a 0 w)
  unfolding upio_set set_lpm_mode
  upio_lpm-Silent a w = ground arith

  -- With callbacks, the end of the session, at each address `a`: where no buffer is to be had, it
  -- reports exactly one outcome, and sends, takes and gives nothing; where it gets the buffer at
  -- `addr`, its last call hands HCI_RESET in that buffer to `xmit_cb`, it reports nothing, and it
  -- gives the buffer away only if `xmit_cb` accepts: if not, the buffer is lost.
  pub hw_epilog_process_lem :
      (a : ℕ) (w : World)
      → w.cbacks ≡ true
      → let w' = hw_epilog_process c e w in
        (let size = e.bt_hc_hdr_size + 3 in
          (e.alloc_answer w.trace size ≡ none)
          × (epilog_reports w'.trace ≡ epilog_reports w.trace + 1)
          × (sends w'.trace ≡ sends w.trace)
          × (takes a w'.trace ≡ takes a w.trace)
          × (gives a w'.trace ≡ gives a w.trace))
        ⊎ ((addr : ℕ) × (ok : Bool) × (e.alloc_answer w.trace (e.bt_hc_hdr_size + 3) ≡ some addr)
            × Submitted addr ok w'
            × (epilog_reports w'.trace ≡ epilog_reports w.trace)
            × (sends w'.trace ≡ sends w.trace + bit ok)
            × (takes a w'.trace ≡ takes a w.trace + once_at addr a)
            × (gives a w'.trace ≡ gives a w.trace + (if ok then once_at addr a else 0)))
  unfolding hw_epilog_process
  hw_epilog_process_lem a w on =
      elim (Option-cases (call_alloc e (e.bt_hc_hdr_size + hci_cmd_preamble_size) w).1) [
        | inl full ↦ inl (ground arith)
        | inr (addr, got) ↦
            let v : World = (call_alloc e (e.bt_hc_hdr_size + hci_cmd_preamble_size) w).0 in
            let ok : Bool =
              (call_xmit e hci_reset addr (bare_command hci_reset) Cback.epilog v).1 in
            inr (
              addr,
              ok,
              got,
              (bare_command hci_reset, v.trace, ground arith, ground arith),
              ground arith,
              ground arith,
              ground arith,
              ground arith,
            )
      ]

  -- With callbacks, each reply to the epilog's HCI_RESET and each reply to a low power command
  -- that is long enough to be read reports one outcome and frees the event's buffer.
  pub lpm_replies_lem :
      (v : Evt) (w : World) {w₁ w₂ : World}
      → w.cbacks ≡ true
      → hw_lpm_ctrl_cback c e v w ≡ some w₁
      → hw_epilog_cback c e v w ≡ some w₂
      → (lpm_reports w₁.trace ≡ lpm_reports w.trace + 1)
        × (deallocs w₁.trace ≡ deallocs w.trace + 1)
        × (epilog_reports w₂.trace ≡ epilog_reports w.trace + 1)
        × (deallocs w₂.trace ≡ deallocs w.trace + 1)
  unfolding hw_lpm_ctrl_cback hw_epilog_cback
  lpm_replies_lem v w on h₁ h₂ =
      let (status, _, k₁) = bind_some (evt_status v) _ h₁ in
      let (status', _, k₂) = bind_some (evt_status v) _ h₂ in
      let (opcode, _, k₃) = bind_some (evt_opcode v) _ k₂ in ground arith

idle_unit_le : (chip : Bytes) → idle_unit chip ≤ 300
unfolding idle_unit
idle_unit_le chip = ground arith

uint32_small : (n : ℕ) → n < 2 ^ 32 → uint32 n ≡ n
uint32_small n h = omega arith

mul_bound : (a b x y : ℕ) → a ≤ x → b ≤ y → a * b ≤ x * y
mul_bound a b x y h k = grind arith

-- With an idle threshold of one byte and a multiple of at most 10, the idle timeout is the exact
-- product of threshold, multiple and the chip's unit: `uint32_t` does not wrap around.
pub hw_lpm_get_idle_timeout_exact :
    (c : Config) (w : World)
    → c.lpm.host_stack_idle_threshold < 256
    → c.lpm_idle_timeout_multiple ≤ 10
    → hw_lpm_get_idle_timeout c w
      ≡ c.lpm.host_stack_idle_threshold
        * c.lpm_idle_timeout_multiple
        * idle_unit w.hw.local_chip_name
unfolding hw_lpm_get_idle_timeout
hw_lpm_get_idle_timeout_exact c w byte multiple =
    let threshold : ℕ = c.lpm.host_stack_idle_threshold in
    let product : ℕ = threshold * c.lpm_idle_timeout_multiple in
    let unit : ℕ = idle_unit w.hw.local_chip_name in
    let small : product ≤ 256 * 10 = mul_bound threshold _ 256 10 (omega arith) multiple in
    let result : product * unit ≤ 2560 * 300 =
      mul_bound product unit 2560 300 small (idle_unit_le w.hw.local_chip_name) in
    ap (λ n. uint32 (n * unit)) (uint32_small product (omega arith))
    ∙ uint32_small (product * unit) (omega arith)
