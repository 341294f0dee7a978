-- ===== src/Link/Download.antt =====
-- The patch file goes to the controller: record by record, in order, unchanged.
use myir_bluetooth.Common.{
  ℕ, ◌+◌, ◌<◌, ◌^◌, Bool, true, false, Option, none, some, List, [], ◌∷◌, ◌++◌, Bytes, ◌≡◌, refl,
  arith, length, drop, length-append, drop-append_self, drop-drop, ap, sym, ◌∙◌,
}
use myir_bluetooth.Config.{Config}
use myir_bluetooth.Hardware.Hci.{hci_reset, bare_command}
use myir_bluetooth.Link.Transfer.{sends_record, sends_reset}
use myir_bluetooth.Link.Peers.{Willing, Controller, IsFile, position, turns, turns-add}
use myir_bluetooth.Link.Steps.{Waits, Sends, Sends-append, Next}
use myir_bluetooth.Platform.{Env}
use myir_bluetooth.World.{World, HwState, start}
use myir_bluetooth.Link.Records.{
  Continues, IsPatch, IsPatch-uncons, PatchCommand, contents, encode, newest_first, opcode_of,
  phase,
}

module _ (c : Config) (e : Env) (willing : Willing e) (k : Controller) (fd : ℕ) (all : Bytes)
    (file : IsFile e fd all) where
  -- After `n` turns the commands in `sent` were accepted, newest first.
  abbrev pub Reached : ℕ → ℕ → List Bytes → HwState → Bool → Option ℕ → ℕ → World → Type 0
  Reached n size sent s b f opcode w =
      (w' : World) × (turns c e k n w ≡ some w') × Waits s b f opcode w' × Sends fd size sent w w'

  one_turn :
      {size opcode : ℕ} {bytes : Bytes} {s : HwState} {b : Bool} {f : Option ℕ} (w : World)
      → Next c e willing k fd size bytes s b f opcode w
      → Reached 1 size (bytes ∷ []) s b f opcode w
  unfolding turns
  one_turn w (w', at, waits, sends) = (w', rw at refl, waits, sends)

  then_turns :
      (m n p q : ℕ) (xs ys : List Bytes) (s : HwState) (b : Bool) (f : Option ℕ) (opcode : ℕ)
      (w v : World)
      → turns c e k m w ≡ some v
      → Sends fd p xs w v
      → Reached n q ys s b f opcode v
      → Reached (m + n) (p + q) (ys ++ xs) s b f opcode w
  then_turns m n p q xs ys s b f opcode w v at sends (w', at', waits', sends') =
      (w', turns-add c e k m n w at at', waits', Sends-append fd p q xs ys w v w' sends sends')

  Reached-cast :
      {m n p q : ℕ} {sent : List Bytes} {s : HwState} {b : Bool} {f : Option ℕ} {opcode : ℕ}
      {w : World}
      → m ≡ n
      → p ≡ q
      → Reached m p sent s b f opcode w
      → Reached n q sent s b f opcode w
  Reached-cast {s = s} {b = b} same size h = rw (sym same, sym size) h

  -- With a willing stack and a controller that completes each command: from the reply to the first
  -- command of the download on, each reply is answered with the next record of the file, unchanged
  -- and in order, and the reply to the last record closes the file and is answered with a reset. Each
  -- record is made of bytes, and none but the last launches the patch.
  pub download_lem :
      (rs : List PatchCommand) (first : Bool) {b : Bool} (opcode : ℕ) (w : World)
      → opcode < 2 ^ 16
      → IsPatch rs
      → Continues rs opcode
      → Waits (phase first) b (some fd) opcode w
      → drop (position fd w.trace) all ≡ contents rs
      → Reached
          (length rs + 1)
          (length (contents rs))
          ((bare_command hci_reset).bytes ∷ newest_first rs)
          start
          true
          none
          hci_reset
          w
  download_lem [] first {b} opcode w small patch go h at =
      one_turn w (sends_reset c e willing k fd all file first b opcode w small h at)
  download_lem (r ∷ rs) first opcode w small patch go h at =
      let (small', patch', go') = IsPatch-uncons r rs patch in
      let (v, one, waits, sends) =
        one_turn w
          (sends_record c e willing k fd all file first opcode r (contents rs) w small h go at) in
      let later : drop (position fd v.trace) all ≡ contents rs =
        ap (λ p. drop p all) sends.offset
        ∙ drop-drop (position fd w.trace) (length (encode r)) all
        ∙ ap (drop (length (encode r))) at
        ∙ drop-append_self (encode r) (contents rs) in
      let size : length (encode r) + length (contents rs) ≡ length (contents (r ∷ rs)) =
        sym (length-append (encode r) (contents rs)) in
      let count : 1 + (length rs + 1) ≡ length (r ∷ rs) + 1 = omega arith in
      Reached-cast count size (
        then_turns 1 (length rs + 1) (length (encode r)) (length (contents rs)) (encode r ∷ [])
          ((bare_command hci_reset).bytes ∷ newest_first rs) start true none hci_reset w v one sends
          (download_lem rs false (opcode_of r) v small' patch' go' waits later))
