-- ===== src/Link/Transfer.antt =====
-- One reply during the download: the next record, or the reset after the last.
use myir_bluetooth.Common.{
  ℕ, ◌+◌, ◌<◌, ◌^◌, Bool, true, false, Option, none, some, [], ◌∷◌, ◌++◌, Bytes, ◌≡◌, ◌≢◌, refl,
  arith, ==_iff, length, take, drop, take-append_self, drop-drop, ap, ◌∙◌,
}
use myir_bluetooth.Config.{Config}
use myir_bluetooth.Hardware.Handler.{dispatch}
use myir_bluetooth.Hardware.Hci.{hci_vsc_launch_ram, hci_reset, bare_command, packet, ms_delay}
use myir_bluetooth.Hardware.Setup.{
  call_read, send_record, on_dl_fw_patch, close_fw, set_state, on_dl_minidriver,
}
use myir_bluetooth.Link.Peers.{Willing, Controller, IsFile, position}
use myir_bluetooth.Link.Sending.{reset-Sent}
use myir_bluetooth.Link.Steps.{Waits, Sent, Next, turn-Sent, served, spare, served-Waits}
use myir_bluetooth.Platform.{Env, Trace, read_file}
use myir_bluetooth.World.{World, HwState, dl_fw_patch, dl_minidriver, start}
use myir_bluetooth.Link.Records.{PatchCommand, encode, opcode_of, phase}

module _ (c : Config) (e : Env) (willing : Willing e) (k : Controller) (fd : ℕ) (all : Bytes)
    (file : IsFile e fd all) where
  open file use {reads}

  -- The two reads of a record that is next in the file.
  read_preamble :
      (t : Trace) (r : PatchCommand) (rest : Bytes)
      → drop (position fd t) all ≡ encode r ++ rest
      → e.read_answer t fd 3 ≡ some (r.lo ∷ r.hi ∷ length r.params ∷ [])
  read_preamble t r rest at = reads t 3 ∙ ap (λ s. some (take 3 s)) at

  position-read :
      (count : ℕ) (b : Bytes) (t : Trace)
      → position fd (read_file fd count (some b) ∷ t) ≡ position fd t + length b
  position-read count b t = ground (arith, ==_iff fd fd)

  read_params :
      (t : Trace) (r : PatchCommand) (rest : Bytes)
      → drop (position fd t) all ≡ encode r ++ rest
      → e.read_answer
          (read_file fd 3 (some (r.lo ∷ r.hi ∷ length r.params ∷ [])) ∷ t)
          fd
          (length r.params)
        ≡ some r.params
  read_params t r rest at =
      let head : Bytes = r.lo ∷ r.hi ∷ length r.params ∷ [] in
      let t₁ : Trace = read_file fd 3 (some head) ∷ t in
      let here : drop (position fd t₁) all ≡ r.params ++ rest =
        ap (λ n. drop n all) (position-read 3 head t)
        ∙ drop-drop (position fd t) 3 all
        ∙ ap (drop 3) at in
      reads t₁ (length r.params)
      ∙ ap (λ s. some (take (length r.params) s)) here
      ∙ ap some (take-append_self r.params rest)

  record-Sent :
      {b : Bool} (opcode addr : ℕ) (r : PatchCommand) (rest : Bytes) (u : World)
      → Waits dl_fw_patch b (some fd) opcode u
      → opcode ≢ hci_vsc_launch_ram
      → drop (position fd u.trace) all ≡ encode r ++ rest
      → Sent fd
          (length (encode r))
          (encode r)
          dl_fw_patch
          b
          (some fd)
          (opcode_of r)
          u
          (on_dl_fw_patch c e opcode addr u)
  unfolding on_dl_fw_patch call_read send_record
  record-Sent {b} opcode addr r rest u h go at =
      let head : Bytes = r.lo ∷ r.hi ∷ length r.params ∷ [] in
      let t₁ : Trace = read_file fd 3 (some head) ∷ u.trace in
      let t₂ : Trace = read_file fd (length r.params) (some r.params) ∷ t₁ in
      ground (
        arith,
        read_preamble u.trace r rest at,
        read_params u.trace r rest at,
        position-read 3 head u.trace,
        position-read (length r.params) r.params t₁,
        willing.accepts t₂ (opcode_of r) (packet (3 + length r.params) (encode r)),
      )

  -- At the end of the file it is closed, and the controller is reset.
  end-Sent :
      (b : Bool) (opcode addr : ℕ) (u : World)
      → Waits dl_fw_patch b (some fd) opcode u
      → drop (position fd u.trace) all ≡ []
      → Sent fd 0
          (bare_command hci_reset).bytes
          start
          true
          none
          hci_reset
          u
          (on_dl_fw_patch c e opcode addr u)
  unfolding on_dl_fw_patch call_read close_fw
  end-Sent b opcode addr u h at =
      let t₁ : Trace = read_file fd 3 (some []) ∷ u.trace in
      let v : World = close_fw (record u { trace = t₁ }) in
      ground (
        arith,
        reads u.trace 3 ∙ ap (λ s. some (take 3 s)) at,
        position-read 3 [] u.trace,
        reset-Sent c e willing fd {s = dl_fw_patch} {f = none} {opcode = opcode} b addr v,
      )

  -- The same from the reply to the first command of the download, after 50 ms.
  prepared : World → World
  prepared u = set_state dl_fw_patch (ms_delay 50 u)

  prepared-Waits :
      {b : Bool} {opcode : ℕ} (u : World)
      → Waits dl_minidriver b (some fd) opcode u
      → Waits dl_fw_patch b (some fd) opcode (prepared u)
        × (position fd (prepared u).trace ≡ position fd u.trace)
  unfolding prepared ms_delay
  prepared-Waits u h = ground arith

  prepared-Sent :
      {n op : ℕ} {bytes : Bytes} {s : HwState} {b : Bool} {f : Option ℕ} (u : World)
      (r : World × Bool)
      → Sent fd n bytes s b f op (prepared u) r
      → Sent fd n bytes s b f op u r
  unfolding prepared ms_delay
  prepared-Sent u r h = ground arith

  pub sends_record :
      (first : Bool) {b : Bool} (opcode : ℕ) (r : PatchCommand) (rest : Bytes) (w : World)
      → opcode < 2 ^ 16
      → Waits (phase first) b (some fd) opcode w
      → opcode ≢ hci_vsc_launch_ram
      → drop (position fd w.trace) all ≡ encode r ++ rest
      → Next c e willing k fd (length (encode r)) (encode r) dl_fw_patch b (some fd) (opcode_of r) w
  unfolding dispatch on_dl_minidriver prepared
  sends_record true opcode r rest w small h go at =
      let u : World = served c e willing k w in
      let (h', same) = prepared-Waits u (served-Waits c e willing k w h) in
      turn-Sent c e willing k fd (length (encode r)) opcode w _ small h refl (
        prepared-Sent u _ (
          record-Sent opcode (spare c e willing k w) r rest (prepared u) h' go
            (ap (λ p. drop p all) same ∙ at)))
  sends_record false opcode r rest w small h go at =
      turn-Sent c e willing k fd (length (encode r)) opcode w _ small h refl (
        record-Sent opcode (spare c e willing k w) r rest (served c e willing k w)
          (served-Waits c e willing k w h) go at)

  pub sends_reset :
      (first b : Bool) (opcode : ℕ) (w : World)
      → opcode < 2 ^ 16
      → Waits (phase first) b (some fd) opcode w
      → drop (position fd w.trace) all ≡ []
      → Next c e willing k fd 0 (bare_command hci_reset).bytes start true none hci_reset w
  unfolding dispatch on_dl_minidriver prepared
  sends_reset true b opcode w small h at =
      let u : World = served c e willing k w in
      let (h', same) = prepared-Waits u (served-Waits c e willing k w h) in
      turn-Sent c e willing k fd 0 opcode w _ small h refl (
        prepared-Sent u _ (
          end-Sent b opcode (spare c e willing k w) (prepared u) h'
            (ap (λ p. drop p all) same ∙ at)))
  sends_reset false b opcode w small h at = turn-Sent c e willing k fd 0 opcode w _ small h refl (
      end-Sent b opcode (spare c e willing k w) (served c e willing k w)
        (served-Waits c e willing k w h) at)
