-- ===== src/Ledger.antt =====
-- Counts over a trace: what was taken from outside, what was given back, what was reported.
use myir_bluetooth.Common.{ℕ, suc, ◌+◌, true, some, [], ◌∷◌, ◌==◌, if◌then◌else◌}
use myir_bluetooth.Platform.{
  Trace, alloc, dealloc, xmit, open_file, read_file, close_file, fwcfg_cb, lpm_cb, audio_state_cb,
  epilog_cb, timer_create, timer_delete,
}

-- Files opened.
abbrev pub opens : Trace → ℕ
opens [] = 0
opens (open_file _ (some _) ∷ t) = suc (opens t)
opens (_ ∷ t) = opens t

-- Files closed.
abbrev pub closes : Trace → ℕ
closes [] = 0
closes (close_file _ ∷ t) = suc (closes t)
closes (_ ∷ t) = closes t

-- Buffers received from the allocator.
abbrev pub allocs : Trace → ℕ
allocs [] = 0
allocs (alloc _ (some _) ∷ t) = suc (allocs t)
allocs (_ ∷ t) = allocs t

-- Buffers given back.
abbrev pub deallocs : Trace → ℕ
deallocs [] = 0
deallocs (dealloc _ ∷ t) = suc (deallocs t)
deallocs (_ ∷ t) = deallocs t

-- Once, for the buffer at `a`.
unfoldable pub once_at : ℕ → ℕ → ℕ
once_at addr a = if addr == a then 1 else 0

-- How often the buffer at `a` was received from the allocator, and how often it was given away:
-- back to the allocator, or to the stack with a command that it accepted.
abbrev pub takes : ℕ → Trace → ℕ
takes a [] = 0
takes a (alloc _ (some addr) ∷ t) = once_at addr a + takes a t
takes a (_ ∷ t) = takes a t

abbrev pub gives : ℕ → Trace → ℕ
gives a [] = 0
gives a (dealloc addr ∷ t) = once_at addr a + gives a t
gives a (xmit _ addr _ _ true ∷ t) = once_at addr a + gives a t
gives a (_ ∷ t) = gives a t

-- Commands that the stack accepted; it owns their buffers from then on.
abbrev pub sends : Trace → ℕ
sends [] = 0
sends (xmit _ _ _ _ true ∷ t) = suc (sends t)
sends (_ ∷ t) = sends t

-- Outcomes of the firmware configuration that the stack was told.
abbrev pub fw_reports : Trace → ℕ
fw_reports [] = 0
fw_reports (fwcfg_cb _ ∷ t) = suc (fw_reports t)
fw_reports (_ ∷ t) = fw_reports t

-- Outcomes of the audio configuration that the stack was told.
abbrev pub audio_reports : Trace → ℕ
audio_reports [] = 0
audio_reports (audio_state_cb _ ∷ t) = suc (audio_reports t)
audio_reports (_ ∷ t) = audio_reports t

-- Outcomes of a low power mode command that the stack was told.
abbrev pub lpm_reports : Trace → ℕ
lpm_reports [] = 0
lpm_reports (lpm_cb _ ∷ t) = suc (lpm_reports t)
lpm_reports (_ ∷ t) = lpm_reports t

-- Outcomes of the epilog that the stack was told.
abbrev pub epilog_reports : Trace → ℕ
epilog_reports [] = 0
epilog_reports (epilog_cb _ ∷ t) = suc (epilog_reports t)
epilog_reports (_ ∷ t) = epilog_reports t

-- Outcomes told of anything else than the firmware configuration, and SCO's settings not counted.
abbrev pub other_reports : Trace → ℕ
other_reports [] = 0
other_reports (lpm_cb _ ∷ t) = suc (other_reports t)
other_reports (audio_state_cb _ ∷ t) = suc (other_reports t)
other_reports (epilog_cb _ ∷ t) = suc (other_reports t)
other_reports (_ ∷ t) = other_reports t

-- Timers created.
abbrev pub timers_made : Trace → ℕ
timers_made [] = 0
timers_made (timer_create (some _) ∷ t) = suc (timers_made t)
timers_made (_ ∷ t) = timers_made t

-- Timers deleted.
abbrev pub timers_deleted : Trace → ℕ
timers_deleted [] = 0
timers_deleted (timer_delete _ ∷ t) = suc (timers_deleted t)
timers_deleted (_ ∷ t) = timers_deleted t

-- The reads that gave at least the three bytes of a record's preamble.
abbrev pub full_reads : Trace → ℕ
full_reads [] = 0
full_reads (read_file _ _ (some (_ ∷ _ ∷ _ ∷ _)) ∷ t) = suc (full_reads t)
full_reads (_ ∷ t) = full_reads t
