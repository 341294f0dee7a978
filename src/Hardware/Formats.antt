-- ===== src/Hardware/Formats.antt =====
-- Which commands of hardware.c are laid out as their headers say.
pub mod Download
pub mod Setup
pub mod Audio
use myir_bluetooth.Common.{
  ℕ, ◌+◌, ◌-◌, ◌*◌, ◌/◌, ◌%◌, ◌^◌, ◌<◌, ◌≤◌, Bool, true, false, ◌&&◌, ◌==◌, ltb, if◌then◌else◌, [],
  ◌∷◌, ◌≡◌, arith, Bytes, length, replicate, Bool-cases, Option-cases, inl, inr, some, none,
  bind_some, leb, Option,
}
use myir_bluetooth.Config.{Config, sco_bytes, pcm_bytes, i2s_bytes, lpm_bytes}
use myir_bluetooth.Hardware.Hci.{
  packet, uint16_to_stream, uint32_to_stream, hci_cmd_preamble_size, bare_command, bd_addr_command,
  uart_clock_command, baudrate_command,
}
use myir_bluetooth.Hardware.Lpm.{sleep_command}
use myir_bluetooth.Hardware.Sco.{param_command}
use myir_bluetooth.Ledger.{full_reads}
use myir_bluetooth.Platform.{Env, Packet, Trace, xmit, read_file}
use myir_bluetooth.World.{World, BdAddr, log}

-- Two bytes that are the opcode, low byte first, the number of parameter bytes, and those; and a
-- length that counts all of it.
abbrev pub is_laid_out : ℕ → ℕ → Bytes → Bool
is_laid_out opcode len (lo ∷ hi ∷ n ∷ params) =
    (ltb lo 256 && ltb hi 256)
    && (lo + 256 * hi == opcode && (n == length params && len == 3 + length params))
is_laid_out opcode len _ = false

-- 1 for a command that is laid out otherwise.
unfoldable pub misfit : ℕ → Packet → ℕ
misfit opcode p = if is_laid_out opcode p.len p.bytes then 0 else 1

-- The commands handed to the stack that are laid out otherwise.
abbrev pub misfits : Trace → ℕ
misfits [] = 0
misfits (xmit opcode _ p _ _ ∷ t) = misfit opcode p + misfits t
misfits (_ ∷ t) = misfits t

pub packet_fits :
    (opcode : ℕ) (params : Bytes)
    → opcode < 2 ^ 16
    → misfit opcode (packet (3 + length params) (uint16_to_stream opcode (length params ∷ params)))
      ≡ 0
unfolding misfit
packet_fits opcode params small = ground arith

pub misfit_le : (opcode : ℕ) (p : Packet) → misfit opcode p ≤ 1
unfolding misfit
misfit_le opcode p = ground arith

pub bd_addr_fits : (a : BdAddr) → misfit 0xFC01 (bd_addr_command a) ≡ 0
bd_addr_fits a = packet_fits 0xFC01 (a.b5 ∷ a.b4 ∷ a.b3 ∷ a.b2 ∷ a.b1 ∷ a.b0 ∷ []) (omega arith)

pub baudrate_fits : (rate : ℕ) → misfit 0xFC18 (baudrate_command rate) ≡ 0
baudrate_fits rate = packet_fits 0xFC18 (0 ∷ 0 ∷ uint32_to_stream rate []) (omega arith)

pub sleep_fits : (c : Config) (e : Env) (on : Bool) → misfit 0xFC27 (sleep_command c e on) ≡ 0
sleep_fits c e true = packet_fits 0xFC27 (lpm_bytes c.lpm) (omega arith)
sleep_fits c e false = packet_fits 0xFC27 (replicate 12 0) (omega arith)

-- From `w` to `w'`, no more commands were handed over that are laid out otherwise than records were
-- begun to be read from a file.
abbrev pub Formed : World → World → Type 0
Formed w w' = misfits w'.trace + full_reads w.trace ≤ misfits w.trace + full_reads w'.trace

pub read_more : (fd n : ℕ) (r : Option Bytes) (w : World) → Formed w (log (read_file fd n r) w)
read_more fd n none w = omega arith
read_more fd n (some []) w = omega arith
read_more fd n (some (x ∷ [])) w = omega arith
read_more fd n (some (x ∷ y ∷ [])) w = omega arith
read_more fd n (some (x ∷ y ∷ z ∷ s)) w = omega arith
