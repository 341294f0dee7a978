-- ===== src/Link/Reports.antt =====
-- What the trace of an exchange holds: commands in their order, and the outcome.
use myir_bluetooth.Common.{
  ℕ, ◌+◌, Bool, Option, none, some, List, [], ◌∷◌, ◌++◌, Bytes, ◌≡◌, arith, length, ap, sym, ◌∙◌,
  length-append, length-reverse,
}
use mathlib.Core.List.{reverse, append_assoc, reverse-append}
use myir_bluetooth.Ledger.{fw_reports, sends}
use myir_bluetooth.Link.Peers.{sends-commands, commands}
use myir_bluetooth.Link.Steps.{Waits, Adds}
use myir_bluetooth.Platform.{Trace, OpResult, success, fwcfg_cb}
use myir_bluetooth.World.{World, HwState, idle}

-- The newest outcome of the firmware configuration that the stack was told.
abbrev pub last_report : Trace → Option OpResult
last_report [] = none
last_report (fwcfg_cb r ∷ t) = some r
last_report (_ ∷ t) = last_report t

pub Adds-append :
    (xs ys : List Bytes) (u v w : World) → Adds xs u v → Adds ys v w → Adds (xs ++ ys) u w
Adds-append xs ys u v w h k = record {
  logged =
      k.logged
      ∙ ap (λ t. reverse ys ++ t) h.logged
      ∙ sym (append_assoc (reverse ys) (reverse xs) (commands u.trace))
      ∙ ap (λ t. t ++ commands u.trace) (sym (reverse-append xs ys));
  untold = k.untold ∙ h.untold;
  address = k.address ∙ h.address;
}

-- The state waits, and the patch file is still to be found.
abbrev pub Searching : HwState → Bool → ℕ → Bytes → World → Type 0
Searching s b opcode path w =
    Waits s b none opcode w × (w.hw.fw_patchfile_path ≡ path) × (w.hw.fw_patchfile_name ≡ [])

-- What a finished configuration leaves: the state is idle and holds no file, the stack was told of
-- one more outcome, a success, and `sent` was accepted, newest first.
pub record Configured (reports : ℕ) (sent : List Bytes) (w : World) : Type 0 where
  pub state : w.hw.state ≡ idle
  pub closed : w.hw.fw_fd ≡ none
  pub told : fw_reports w.trace ≡ reports + 1
  pub good : last_report w.trace ≡ some success
  pub logged : commands w.trace ≡ sent

pub Configured-Adds :
    (sent : List Bytes) (u v w : World)
    → Adds sent u v
    → Configured (fw_reports v.trace) (commands v.trace) w
    → Configured (fw_reports u.trace) (reverse sent ++ commands u.trace) w
Configured-Adds sent u v w a h = record {
  state = h.state;
  closed = h.closed;
  told = h.told ∙ ap (λ n. n + 1) a.untold;
  good = h.good;
  logged = h.logged ∙ a.logged;
}

pub sends-Adds :
    (sent : List Bytes) (u v : World) → Adds sent u v → sends v.trace ≡ sends u.trace + length sent
sends-Adds sent u v a = omega (
  arith,
  sends-commands u.trace,
  sends-commands v.trace,
  ap length a.logged,
  length-append (reverse sent) (commands u.trace),
  length-reverse sent,
)
