-- ===== src/Upio/Rfkill.antt =====
-- The search for the rfkill node of Bluetooth, over nodes that do not change while it runs.
use myir_bluetooth.Common.{
  ℕ, Bool, true, false, Option, none, some, [], ◌∷◌, ◌≡◌, ◌≢◌, ◌⊎◌, Bytes, codes, take, ◌++◌,
}
use myir_bluetooth.Platform.{Env, Trace, close_file, write_file, open_file}
use myir_bluetooth.Upio.Files.{SameFiles}
use myir_bluetooth.World.{World}

-- The files of radio `id`; `snprintf` cuts the first after 63 bytes.
abbrev pub type_node : Env → ℕ → Bytes
type_node e id = take 63 (codes "/sys/class/rfkill/rfkill" ++ (e.decimal id ++ codes "/type"))

abbrev pub state_node : Env → ℕ → Bytes
state_node e id = codes "/sys/class/rfkill/rfkill" ++ (e.decimal id ++ codes "/state")

-- What stands at `/sys/class/rfkill/rfkill<id>/type`: a descriptor, and what `read` answers there.
pub record Nodes (e : Env) : Type 0 where
  pub node : ℕ → Option (ℕ × Option Bytes)
  pub opened : (id : ℕ) (w : World) → node id ≡ none → e.open_answer w.trace (type_node e id) ≡ none
  pub opened_some :
      (id fd : ℕ) (r : Option Bytes) (w : World)
      → node id ≡ some (fd, r)
      → (e.open_answer w.trace (type_node e id) ≡ some fd)
        × ((v : World) → e.read_answer v.trace fd 16 ≡ r)

-- '1' turns the power on, '0' stands for any other argument.
abbrev pub IsDigit : ℕ → ℕ → Type 0
IsDigit on x = ((on ≡ 1) × (x ≡ 49)) ⊎ ((on ≢ 1) × (x ≡ 48))

-- At the end of `w'`, the digit for `on` was written into the state file of radio `n`, which
-- `write` answered with `ok`, and the file was closed again.
abbrev pub Tried : Env → ℕ → ℕ → Bool → World → Type 0
Tried e n on ok w' =
    (fd : ℕ) × (x : ℕ) × (t : Trace) × IsDigit on x
    × (e.write_answer (open_file (state_node e n) (some fd) ∷ t) fd (x ∷ []) ≡ ok)
    × (w'.trace
        ≡ close_file fd ∷ write_file fd (x ∷ []) ok ∷ open_file (state_node e n) (some fd) ∷ t)

-- At the end of `w'`, the state file of radio `n` could not be opened.
abbrev pub Unopened : Env → ℕ → World → Type 0
Unopened e n w' =
    (t : Trace) × (e.open_answer t (state_node e n) ≡ none)
    × (w'.trace ≡ open_file (state_node e n) none ∷ t)

-- What was read from a type file does not begin with "bluetooth".
abbrev pub IsForeign : Option Bytes → Type 0
IsForeign r = (rest : Bytes) → r ≢ some (codes "bluetooth" ++ rest)

module _ (e : Env) (d : Nodes e) where
  open d use {node, opened, opened_some}

  -- A node of another kind of radio.
  abbrev pub IsOther : ℕ → Type 0
  IsOther id = (fd : ℕ) × (r : Option Bytes) × (node id ≡ some (fd, r)) × IsForeign r

  abbrev pub IsBluetooth : ℕ → Type 0
  IsBluetooth id =
      (fd : ℕ) × (rest : Bytes) × (node id ≡ some (fd, some (codes "bluetooth" ++ rest)))

  abbrev pub Scanned : ℕ → Option (World × Bool) → World → Type 0
  Scanned n r w =
      (w' : World) × (((r ≡ some (w', true))
          × IsBluetooth n
          × (w'.upio.rfkill_id ≡ some n)
          × (w'.upio.rfkill_state_path ≡ state_node e n))
        ⊎ ((r ≡ some (w', false)) × (node n ≡ none) × (w'.upio ≡ w.upio)))
      × SameFiles w w'
