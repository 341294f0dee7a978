-- ===== src/Hardware/Kept.antt =====
-- What a case of the handler's `switch` keeps.
use myir_bluetooth.Common.{ℕ, ◌+◌, ◌≤◌, Bool, true, false, ◌≡◌, arith}
use myir_bluetooth.Hardware.Hci.{ms_delay}
use myir_bluetooth.Hardware.Setup.{close_fw}
use myir_bluetooth.Ledger.{
  opens, closes, allocs, deallocs, sends, fw_reports, other_reports, timers_made, timers_deleted,
  once_at, takes, gives,
}
use myir_bluetooth.Upio.Timers.{bit}
use myir_bluetooth.Userial.Opening.{held}
use myir_bluetooth.World.{World}

-- What is due at `a` for the command buffer at `addr`, if a case proceeds.
abbrev pub due : ℕ → ℕ → Bool → ℕ
due a addr true = once_at addr a
due a addr false = 0

-- Of a case that ends in `r`: if it proceeds, the command buffer at `addr` went to the stack or back to the
-- allocator, once, and the stack was sent a command or told an outcome, once; otherwise neither. The buffer at `a` was given away as often as it was received, but for that command.
-- The files opened and closed agree with the descriptor that the control block holds; the timer,
-- the signals and the other outcomes are left alone.
pub record Kept (a addr : ℕ) (w : World) (r : World × Bool) : Type 0 where
  pub buffer : sends r.0.trace + deallocs r.0.trace ≡ sends w.trace + deallocs w.trace + bit r.1
  pub owned :
      gives a r.0.trace + takes a w.trace ≡ gives a w.trace + takes a r.0.trace + due a addr r.1
  pub outcome :
      sends r.0.trace + fw_reports r.0.trace ≡ sends w.trace + fw_reports w.trace + bit r.1
  pub allocated : allocs r.0.trace ≡ allocs w.trace
  pub callbacks : r.0.cbacks ≡ w.cbacks
  pub port : r.0.serial.fd ≡ w.serial.fd
  pub files :
      opens r.0.trace + closes w.trace + held w.hw.fw_fd
      ≡ closes r.0.trace + opens w.trace + held r.0.hw.fw_fd
  pub growing : sends w.trace ≤ sends r.0.trace
  pub telling : fw_reports w.trace ≤ fw_reports r.0.trace
  pub others : other_reports r.0.trace ≡ other_reports w.trace
  pub made : timers_made r.0.trace ≡ timers_made w.trace
  pub deleted : timers_deleted r.0.trace ≡ timers_deleted w.trace
  pub upio : r.0.upio ≡ w.upio
  pub path : r.0.hw.fw_patchfile_path ≡ w.hw.fw_patchfile_path
  pub name : r.0.hw.fw_patchfile_name ≡ w.hw.fw_patchfile_name

-- The same with no command sent and no outcome told.
abbrev pub Quiet : ℕ → World → World → Type 0
Quiet a w w' = Kept a 0 w (w', false)

pub Quiet-Kept :
    (a addr : ℕ) (w v : World) (r : World × Bool) → Quiet a w v → Kept a addr v r → Kept a addr w r
Quiet-Kept a addr w v r p q = ground arith

pub close_fw-Quiet : (a : ℕ) (w : World) → Quiet a w (close_fw w)
unfolding close_fw
close_fw-Quiet a w = ground arith

pub ms_delay-Quiet : (a ms : ℕ) (w : World) → Quiet a w (ms_delay ms w)
unfolding ms_delay
ms_delay-Quiet a ms w = ground arith
