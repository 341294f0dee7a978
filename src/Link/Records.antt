-- ===== src/Link/Records.antt =====
-- The patch file as a list of commands.
use myir_bluetooth.Common.{
  ℕ, ◌<◌, ◌^◌, Bool, true, false, List, [], ◌∷◌, ◌++◌, Bytes, ◌≢◌, arith, length,
}
use myir_bluetooth.Hardware.Hci.{hci_vsc_launch_ram, stream_to_uint16}
use myir_bluetooth.World.{HwState, dl_fw_patch, dl_minidriver}

-- A record of a patch file: a command with its opcode, low byte first, and its parameters.
pub record PatchCommand : Type 0 where
  pub lo : ℕ
  pub hi : ℕ
  pub params : Bytes

abbrev pub encode : PatchCommand → Bytes
encode r = r.lo ∷ r.hi ∷ length r.params ∷ r.params

abbrev pub opcode_of : PatchCommand → ℕ
opcode_of r = stream_to_uint16 r.lo r.hi

-- The contents of the file.
abbrev pub contents : List PatchCommand → Bytes
contents [] = []
contents (r ∷ rs) = encode r ++ contents rs

-- The commands as the trace holds them, the last record first.
abbrev pub newest_first : List PatchCommand → List Bytes
newest_first [] = []
newest_first (r ∷ rs) = newest_first rs ++ encode r ∷ []

-- The two states in which the file is read; the flag is for the first command.
abbrev pub phase : Bool → HwState
phase true = dl_minidriver
phase false = dl_fw_patch

-- The bytes are bytes, and only the last command may launch the patch.
abbrev pub IsPatch : List PatchCommand → Type 0
IsPatch [] = Unit
IsPatch (r ∷ []) = (r.lo < 256) × (r.hi < 256) × (length r.params < 256)
IsPatch (r ∷ q ∷ rs) =
    (r.lo < 256)
    × (r.hi < 256)
    × (length r.params < 256)
    × (opcode_of r ≢ hci_vsc_launch_ram)
    × IsPatch (q ∷ rs)

-- A reply after which the file is read on, if there is more of it.
abbrev pub Continues : List PatchCommand → ℕ → Type 0
Continues [] opcode = Unit
Continues (r ∷ rs) opcode = opcode ≢ hci_vsc_launch_ram

pub Continues-other :
    (rs : List PatchCommand) {opcode : ℕ} → opcode ≢ hci_vsc_launch_ram → Continues rs opcode
Continues-other [] other = tt
Continues-other (r ∷ rs) other = other

pub IsPatch-uncons :
    (r : PatchCommand) (rs : List PatchCommand)
    → IsPatch (r ∷ rs)
    → (opcode_of r < 2 ^ 16) × IsPatch rs × Continues rs (opcode_of r)
IsPatch-uncons r [] (lo, hi, n) = (omega arith, tt, tt)
IsPatch-uncons r (q ∷ rs) (lo, hi, n, go, more) = (omega arith, more, go)
