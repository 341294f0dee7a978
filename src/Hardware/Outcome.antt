-- ===== src/Hardware/Outcome.antt =====
-- What one call of the configuration's handler does with buffers, commands, reports and files.
use myir_bluetooth.Common.{
  bind_some, ℕ, ◌+◌, ◌≤◌, Bool, true, false, ◌&&◌, Option, none, some, ◌≡◌, arith, Option-cases,
  Bool-cases, inl, inr, ◌==◌,
}
use myir_bluetooth.Config.{Config}
use myir_bluetooth.Hardware.Cases.{dispatch-Kept}
use myir_bluetooth.Hardware.Kept.{Kept}
use myir_bluetooth.Hardware.Handler.{
  dispatch, free_evt, abort, finish, with_buffer, hw_config_cback,
}
use myir_bluetooth.Hardware.Hci.{evt_status, evt_opcode, hci_cmd_max_len}
use myir_bluetooth.Hardware.Setup.{close_fw}
use myir_bluetooth.Ledger.{
  opens, closes, allocs, deallocs, sends, fw_reports, other_reports, timers_made, timers_deleted,
  once_at, takes, gives,
}
use myir_bluetooth.Platform.{Env, Evt}
use myir_bluetooth.Userial.Opening.{held}
use myir_bluetooth.World.{World, read_local_name, call_alloc}

-- From `w` to `w'` the stack was sent one command or told one outcome; every command buffer that
-- was received went to the stack or back, and so did the event's, in number and at the address
-- `a`; and the files opened and closed agree with the descriptor that is held.
pub record Handled (a : ℕ) (v : Evt) (w w' : World) : Type 0 where
  pub outcome : sends w'.trace + fw_reports w'.trace ≡ sends w.trace + fw_reports w.trace + 1
  pub buffers :
      sends w'.trace + deallocs w'.trace + allocs w.trace
      ≡ sends w.trace + deallocs w.trace + allocs w'.trace + 1
  pub owned :
      gives a w'.trace + takes a w.trace ≡ gives a w.trace + takes a w'.trace + once_at v.addr a
  pub files :
      opens w'.trace + closes w.trace + held w.hw.fw_fd
      ≡ closes w'.trace + opens w.trace + held w'.hw.fw_fd

-- From `w` to `w'` the timer, the signals, the other outcomes and the names from the configuration
-- were left alone, and no command was taken back.
pub record Apart (w w' : World) : Type 0 where
  pub growing : sends w.trace ≤ sends w'.trace
  pub telling : fw_reports w.trace ≤ fw_reports w'.trace
  pub others : other_reports w'.trace ≡ other_reports w.trace
  pub made : timers_made w'.trace ≡ timers_made w.trace
  pub deleted : timers_deleted w'.trace ≡ timers_deleted w.trace
  pub upio : w'.upio ≡ w.upio
  pub path : w'.hw.fw_patchfile_path ≡ w.hw.fw_patchfile_path
  pub name : w'.hw.fw_patchfile_name ≡ w.hw.fw_patchfile_name
  pub callbacks : w'.cbacks ≡ w.cbacks

module _ (c : Config) (e : Env) where
  abbrev pub after_alloc : World → World × Option ℕ
  after_alloc w = call_alloc e (e.bt_hc_hdr_size + hci_cmd_max_len) w

  -- How a call of the handler can end: with no attempt to get a buffer, with none received, or
  -- through a case of the `switch`.
  pub data Ended (v : Evt) (w w' : World) : Type 0 where
    refused : w' ≡ finish c e v none (w, false) → Ended v w w'
    no_buffer :
        w.cbacks ≡ true
        → (after_alloc w).1 ≡ none
        → w' ≡ finish c e v none ((after_alloc w).0, false)
        → Ended v w w'
    switched :
        (addr opcode : ℕ) (r : World × Bool)
        → w.cbacks ≡ true
        → (after_alloc w).1 ≡ some addr
        → dispatch c e w.hw.state v opcode addr (after_alloc w).0 ≡ some r
        → w' ≡ finish c e v (some addr) r
        → Ended v w w'

  with_buffer-Ended :
      (v : Evt) (opcode : ℕ) (w : World) {w' : World}
      → w.cbacks ≡ true
      → with_buffer c e v opcode w ≡ some w'
      → Ended v w w'
  unfolding with_buffer
  with_buffer-Ended v opcode w on h = elim (Option-cases (after_alloc w).1) [
    | inl full ↦ no_buffer on full (ground arith)
    | inr (addr, got) ↦
        elim (Option-cases (dispatch c e w.hw.state v opcode addr (after_alloc w).0)) [
          | inl fault ↦ absurd (ground arith)
          | inr (r, at) ↦ switched addr opcode r on got at (ground arith)
        ]
  ]

  pub hw_config_cback-Ended :
      (v : Evt) (w : World) {w' : World} → hw_config_cback c e v w ≡ some w' → Ended v w w'
  unfolding hw_config_cback
  hw_config_cback-Ended v w h =
      let (status, _, h₁) = bind_some (evt_status v) _ h in
      let (opcode, _, h₂) = bind_some (evt_opcode v) _ h₁ in
      elim (Bool-cases (status == 0 && w.cbacks)) [
        | inl go ↦ with_buffer-Ended v opcode w (ground arith) (ground arith)
        | inr stop ↦ refused (ground arith)
      ]

  finish-Handled :
      (a : ℕ) (v : Evt) (addr size : ℕ) (w : World) (r : World × Bool)
      → w.cbacks ≡ true
      → (call_alloc e size w).1 ≡ some addr
      → Kept a addr (call_alloc e size w).0 r
      → Handled a v w (finish c e v (some addr) r)
  unfolding finish free_evt abort close_fw
  finish-Handled a v addr size w r on got k = ground arith

  refuse-Handled :
      (a : ℕ) (v : Evt) (w : World) → w.cbacks ≡ true → Handled a v w (finish c e v none (w, false))
  unfolding finish free_evt abort close_fw
  refuse-Handled a v w on = ground arith

  no_buffer-Handled :
      (a : ℕ) (v : Evt) (size : ℕ) (w : World)
      → w.cbacks ≡ true
      → (call_alloc e size w).1 ≡ none
      → Handled a v w (finish c e v none ((call_alloc e size w).0, false))
  unfolding finish free_evt abort close_fw
  no_buffer-Handled a v size w on full = ground arith

  -- While the stack's callbacks are set, and unless the local name arrives with a patch file still
  -- open: each call of the handler that returns sends the stack exactly one command or tells it
  -- exactly one outcome, whatever the state, the event and the answers from outside. It disposes
  -- of the event's buffer and of the command buffer that it takes exactly once: whatever address
  -- is looked at, the buffer there is given away once each time that it was received. Every file
  -- that it opens is closed or is the one that the control block holds.
  pub hw_config_cback-Handled :
      (a : ℕ) (v : Evt) (w : World) {w' : World}
      → w.cbacks ≡ true
      → (w.hw.state ≡ read_local_name → w.hw.fw_fd ≡ none)
      → hw_config_cback c e v w ≡ some w'
      → Handled a v w w'
  hw_config_cback-Handled a v w on shut h = elim (hw_config_cback-Ended v w h) [
    | refused end ↦ rw end (refuse-Handled a v w on)
    | no_buffer _ full end ↦ rw end (no_buffer-Handled a v _ w on full)
    | switched addr opcode r _ got at end ↦ rw end (
        finish-Handled a v addr _ w r on got
          (dispatch-Kept c e a w.hw.state v opcode addr _ shut at))
  ]

  finish-Apart :
      (v : Evt) (addr size : ℕ) (w : World) (r : World × Bool)
      → Kept 0 addr (call_alloc e size w).0 r
      → Apart w (finish c e v (some addr) r)
  unfolding finish free_evt abort close_fw
  finish-Apart v addr size w r k = ground arith

  pub hw_config_cback-Apart :
      (v : Evt) (w : World) {w' : World}
      → (w.hw.state ≡ read_local_name → w.hw.fw_fd ≡ none)
      → hw_config_cback c e v w ≡ some w'
      → Apart w w'
  unfolding finish free_evt abort close_fw
  hw_config_cback-Apart v w shut h = elim (hw_config_cback-Ended v w h) [
    | refused end ↦ rw end (ground arith)
    | no_buffer _ full end ↦ rw end (ground arith)
    | switched addr opcode r _ got at end ↦
        rw end (finish-Apart v addr _ w r (dispatch-Kept c e 0 w.hw.state v opcode addr _ shut at))
  ]
