-- ===== src/Hardware/Machine.antt =====
-- The state machine of the configuration: its transitions, its rank and its invariant.
use myir_bluetooth.Common.{ℕ, ◌+◌, ◌≤◌, Bool, true, false, none, ◌≡◌}
use myir_bluetooth.Ledger.{full_reads}
use myir_bluetooth.World.{
  World, HwState, idle, start, set_uart_clock, set_uart_baud_1, read_local_name, dl_minidriver,
  dl_fw_patch, set_uart_baud_2, set_bd_addr, read_bd_addr,
}

-- The transitions on a command that the stack accepts, and to `idle` at the end.
abbrev pub edge : HwState → HwState → Bool
edge start set_uart_clock = true
edge start set_uart_baud_1 = true
edge start set_uart_baud_2 = true
edge set_uart_clock set_uart_baud_1 = true
edge set_uart_clock set_uart_baud_2 = true
edge set_uart_baud_1 read_local_name = true
edge read_local_name dl_minidriver = true
edge read_local_name set_bd_addr = true
edge dl_minidriver dl_fw_patch = true
edge dl_minidriver start = true
edge dl_fw_patch dl_fw_patch = true
edge dl_fw_patch start = true
edge set_uart_baud_2 set_bd_addr = true
edge set_uart_baud_2 read_bd_addr = true
edge set_uart_baud_2 idle = true
edge read_bd_addr set_bd_addr = true
edge read_bd_addr idle = true
edge set_bd_addr idle = true
edge _ _ = false

-- How many transitions are left at most, records of the patch file not counted. The flag is
-- `f_set_baud_2`, which is set when the download ends.
abbrev pub rank : HwState → Bool → ℕ
rank start false = 12
rank set_uart_clock false = 11
rank start true = 6
rank set_uart_clock true = 5
rank set_uart_baud_1 b = 10
rank read_local_name b = 9
rank dl_minidriver b = 8
rank dl_fw_patch b = 7
rank set_uart_baud_2 b = 4
rank read_bd_addr b = 3
rank set_bd_addr b = 2
rank idle b = 0

-- The states in which a patch file may be open.
abbrev pub may_hold : HwState → Bool
may_hold dl_minidriver = true
may_hold dl_fw_patch = true
may_hold set_bd_addr = true
may_hold _ = false

pub record IsReady (w : World) : Type 0 where
  pub shut : may_hold w.hw.state ≡ false → w.hw.fw_fd ≡ none

abbrev pub left : World → ℕ
left w = rank w.hw.state w.hw.f_set_baud_2

pub record Moved (w : World) (r : World × Bool) : Type 0 where
  pub ready : may_hold r.0.hw.state ≡ false → r.0.hw.fw_fd ≡ none
  pub along : r.1 ≡ true → edge w.hw.state r.0.hw.state ≡ true
  pub fewer : r.1 ≡ true → left r.0 + full_reads w.trace + 1 ≤ left w + full_reads r.0.trace
