-- ===== src/Hardware/Formats/Download.antt =====
-- The layout of the records of a patch file, and of the reset behind them.
use myir_bluetooth.Common.{
  ℕ, ◌+◌, ◌≤◌, true, some, none, [], ◌∷◌, ◌≡◌, arith, Bytes, length, Bool-cases, Option-cases, inl,
  inr, leb, ltb, ◌||◌, ◌==◌, Option,
}
use myir_bluetooth.Config.{Config}
use myir_bluetooth.Hardware.Formats.{misfits, misfit_le, packet_fits, read_more, Formed}
use myir_bluetooth.Hardware.Hci.{ms_delay, packet, stream_to_uint16, hci_vsc_launch_ram}
use myir_bluetooth.Hardware.Setup.{
  send, end_download, call_read, send_record, on_dl_fw_patch, on_dl_minidriver, close_fw, set_state,
}
use myir_bluetooth.Ledger.{full_reads}
use myir_bluetooth.Platform.{Env, Packet, read_file}
use myir_bluetooth.Userial.Port.{userial_vendor_set_baud}
use myir_bluetooth.World.{World, dl_fw_patch, log}

-- No command was handed over, and no record was read.
abbrev pub Plain : World → World → Type 0
Plain w w' = (misfits w'.trace ≡ misfits w.trace) × (full_reads w'.trace ≡ full_reads w.trace)

pub close_fw-Plain : (w : World) → Plain w (close_fw w)
unfolding close_fw
close_fw-Plain w = ground arith

module _ (c : Config) (e : Env) where
  end-Formed : (addr : ℕ) (w : World) → Formed w (end_download c e addr w).0
  unfolding end_download send ms_delay userial_vendor_set_baud
  end-Formed addr w = ground (arith, packet_fits 0x0C03 [] (omega arith))

  record-Formed :
      (fd : ℕ) (preamble : Bytes) (addr : ℕ) (w : World)
      → misfits (send_record c e fd preamble addr w).0.trace + full_reads w.trace
        ≤ misfits w.trace + full_reads (send_record c e fd preamble addr w).0.trace + 1
  unfolding send_record call_read
  record-Formed fd (lo ∷ hi ∷ n ∷ rest) addr w =
      let w₁ : World = (call_read c e fd n w).0 in
      let head : Bytes = lo ∷ hi ∷ n ∷ rest in
      elim (Option-cases (call_read c e fd n w).1) [
        | inl failed ↦
            ground (arith, end-Formed addr (close_fw w₁), close_fw-Plain w₁, read_more fd n none w)
        | inr (payload, got) ↦
            let p : Packet = packet (length head + length payload) (lo ∷ hi ∷ n ∷ payload) in
            ground (arith, misfit_le (stream_to_uint16 lo hi) p, read_more fd n (some payload) w)
      ]
  record-Formed fd [] addr w = ground (arith, end-Formed addr (close_fw w), close_fw-Plain w)
  record-Formed fd (x ∷ []) addr w = ground (arith, end-Formed addr (close_fw w), close_fw-Plain w)
  record-Formed fd (x ∷ y ∷ []) addr w =
      ground (arith, end-Formed addr (close_fw w), close_fw-Plain w)

  -- The read of a whole preamble counts as a record.
  preamble-Formed :
      (fd : ℕ) (preamble : Bytes) (addr : ℕ) (w : World)
      → leb 3 (length preamble) ≡ true
      → Formed w (send_record c e fd preamble addr (log (read_file fd 3 (some preamble)) w)).0
  preamble-Formed fd (lo ∷ hi ∷ n ∷ rest) addr w whole =
      let head : Bytes = lo ∷ hi ∷ n ∷ rest in
      omega (arith, record-Formed fd head addr (log (read_file fd 3 (some head)) w))
  preamble-Formed fd [] addr w whole = absurd (ground arith)
  preamble-Formed fd (x ∷ []) addr w whole = absurd (ground arith)
  preamble-Formed fd (x ∷ y ∷ []) addr w whole = absurd (ground arith)

  closing-Formed :
      (addr fd : ℕ) (r : Option Bytes) (w : World)
      → Formed w (end_download c e addr (close_fw (log (read_file fd 3 r) w))).0
  closing-Formed addr fd r w =
      let w₁ : World = log (read_file fd 3 r) w in
      omega (arith, end-Formed addr (close_fw w₁), close_fw-Plain w₁, read_more fd 3 r w)

  pub patch-Formed : (opcode addr : ℕ) (w : World) → Formed w (on_dl_fw_patch c e opcode addr w).0
  unfolding on_dl_fw_patch call_read
  patch-Formed opcode addr w = elim (Option-cases w.hw.fw_fd) [
    | inl closed ↦ ground (arith, end-Formed addr w)
    | inr (fd, held) ↦ elim (Option-cases (e.read_answer w.trace fd 3)) [
      | inl failed ↦ ground (arith, closing-Formed addr fd none w)
      | inr (preamble, got) ↦
          elim (Bool-cases (ltb (length preamble) 3 || opcode == hci_vsc_launch_ram)) [
            | inl over ↦ ground (arith, closing-Formed addr fd (some preamble) w)
            | inr more ↦
                let whole : leb 3 (length preamble) ≡ true = ground arith in
                ground (arith, preamble-Formed fd preamble addr w whole)
          ]
    ]
  ]

  pub minidriver-Formed :
      (opcode addr : ℕ) (w : World) → Formed w (on_dl_minidriver c e opcode addr w).0
  unfolding on_dl_minidriver ms_delay
  minidriver-Formed opcode addr w =
      ground (arith, patch-Formed opcode addr (set_state dl_fw_patch (ms_delay 50 w)))
