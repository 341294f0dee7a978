-- ===== src/Link/Configuration.antt =====
-- A whole configuration: from `hw_config_start` to the outcome that the stack is told.
use myir_bluetooth.Common.{
  Bool, ℕ, ◌+◌, true, false, some, List, [], ◌∷◌, ◌++◌, Bytes, ◌≡◌, refl, arith, length, ap, ◌∙◌,
}
use mathlib.Core.List.{reverse, map, reverse-append, reverse-cons}
use myir_bluetooth.Config.{Config}
use myir_bluetooth.Hardware.Handler.{hw_config_start}
use myir_bluetooth.Hardware.Hci.{
  hci_reset, hci_read_local_name, hci_vsc_download_minidrv, hci_vsc_update_baudrate, bare_command,
}
use myir_bluetooth.Ledger.{fw_reports, sends}
use myir_bluetooth.Link.Download.{download_lem}
use myir_bluetooth.Link.Records.{
  PatchCommand, encode, contents, newest_first, IsPatch, Continues-other,
}
use myir_bluetooth.Link.Naming.{Offers, turn_opens}
use myir_bluetooth.Link.Peers.{Exchanged, Willing, Controller, IsFile, commands, position}
use myir_bluetooth.Link.Steps.{Waits}
use myir_bluetooth.Platform.{Env}
use myir_bluetooth.World.{World, BdAddr, start, set_uart_baud_1, read_local_name, dl_minidriver}
use myir_bluetooth.Link.Address.{ending, Addressed, AtEnd, end_After, last_turn}
use myir_bluetooth.Link.Exchange.{
  speed_up, After, After-append, speed_After, name_After, start_Searching,
}
use myir_bluetooth.Link.Reports.{Configured, Configured-Adds, sends-Adds, Adds-append, Searching}

-- The commands of the download, the reset at its end included.
abbrev pub load : List PatchCommand → List Bytes
load rs =
    (bare_command hci_read_local_name).bytes
    ∷ (bare_command hci_vsc_download_minidrv).bytes
    ∷ (map encode rs ++ (bare_command hci_reset).bytes ∷ [])

-- What follows the first reset in the configuration; `null` says that the controller has no address
-- of its own.
abbrev pub rest_of_configuration : Config → (null : Bool) → BdAddr → List PatchCommand → List Bytes
rest_of_configuration c null address rs =
    speed_up c ++ (load rs ++ (speed_up c ++ ending c.use_controller_bdaddr null address))

-- The commands of a configuration with a patch file, in their order.
abbrev pub configuration : Config → (null : Bool) → BdAddr → List PatchCommand → List Bytes
configuration c null address rs =
    (bare_command hci_reset).bytes ∷ rest_of_configuration c null address rs

newest_first_lem : (rs : List PatchCommand) → reverse (map encode rs) ≡ newest_first rs
newest_first_lem [] = refl
newest_first_lem (r ∷ rs) =
    reverse-cons (encode r) (map encode rs) ∙ ap (λ s. s ++ encode r ∷ []) (newest_first_lem rs)

reverse-sent :
    (rs : List PatchCommand) {x : Bytes} → reverse (map encode rs ++ x ∷ []) ≡ x ∷ newest_first rs
reverse-sent rs {x} =
    reverse-append (map encode rs) (x ∷ []) ∙ ap (λ s. x ∷ s) (newest_first_lem rs)

length-sent :
    (rs : List PatchCommand) (x : Bytes) → length (map encode rs ++ x ∷ []) ≡ length rs + 1
length-sent [] x = refl
length-sent (r ∷ rs) x = omega (arith, length-sent rs x)

module _ (c : Config) (e : Env) (up : Willing e) (k : Controller) (path name : Bytes) (fd : ℕ)
    (rs : List PatchCommand) (offer : Offers c e k path name fd) (file : IsFile e fd (contents rs))
    (patch : IsPatch rs) where
  -- The patch file is open at its beginning.
  abbrev Open : World → Type 0
  Open w =
      Waits dl_minidriver false (some fd) hci_vsc_download_minidrv w
      × (position fd w.trace ≡ 0)
      × (w.hw.fw_patchfile_path ≡ path)
      × (w.hw.fw_patchfile_name ≡ [])

  opens_After :
      (w : World)
      → Searching read_local_name false hci_read_local_name path w
      → After c e up k Open ((bare_command hci_vsc_download_minidrv).bytes ∷ []) w
  opens_After w (h, at, unnamed) =
      let (w', ran, waits, adds, begins, at', unnamed') =
        turn_opens c e up k path name fd offer w h at unnamed in
      (w', ran, (waits, begins, at', unnamed'), adds)

  download_After :
      (w : World)
      → Open w
      → After c e up k
          (Searching start true hci_reset path)
          (map encode rs ++ (bare_command hci_reset).bytes ∷ [])
          w
  download_After w (h, begins, at, unnamed) =
      let (w', ran, waits, sends) =
        download_lem c e up k fd (contents rs) file rs true hci_vsc_download_minidrv w (omega arith)
          patch (Continues-other rs (ground arith)) h (rw begins refl) in
      (
        w',
        rw (length-sent rs (bare_command hci_reset).bytes) ran,
        (waits, sends.path ∙ at, sends.name ∙ unnamed),
        record {
          logged = rw (reverse-sent rs) sends.logged;
          untold = sends.untold;
          address = sends.address;
        },
      )

  -- The download, from the request for the name on.
  load-After :
      (w : World)
      → Searching set_uart_baud_1 false hci_vsc_update_baudrate path w
      → After c e up k (Searching start true hci_reset path) (load rs) w
  load-After w h =
      After-append c e up k {Q = Searching start true hci_reset path}
        ((bare_command hci_read_local_name).bytes ∷ []) _ w (name_After c e up k path w h)
        (λ v h₁ _.
          After-append c e up k {Q = Searching start true hci_reset path}
            ((bare_command hci_vsc_download_minidrv).bytes ∷ [])
            (map encode rs ++ (bare_command hci_reset).bytes ∷ []) v (opens_After v h₁)
            (λ u h₂ _. download_After u h₂))

  -- From the second reset on.
  second_After :
      (null : Bool) (a : BdAddr) (w : World)
      → Addressed c k null
      → w.bd_addr ≡ a
      → Searching start true hci_reset path w
      → After c e up k (AtEnd c e up k path) (speed_up c ++ ending c.use_controller_bdaddr null a) w
  second_After null a w read from h =
      After-append c e up k {Q = AtEnd c e up k path} (speed_up c)
        (ending c.use_controller_bdaddr null a) w (speed_After c e up k path true w h)
        (λ v h₁ same. end_After c e up k path null a v read (same ∙ from) h₁)

  -- Everything behind the first reset.
  rest_After :
      (null : Bool) (a : BdAddr) (w : World)
      → Addressed c k null
      → w.bd_addr ≡ a
      → Searching start false hci_reset path w
      → After c e up k (AtEnd c e up k path) (rest_of_configuration c null a rs) w
  rest_After null a w read from h =
      After-append c e up k {Q = AtEnd c e up k path} (speed_up c)
        (load rs ++ (speed_up c ++ ending c.use_controller_bdaddr null a)) w
        (speed_After c e up k path false w h)
        (λ v h₁ same.
          After-append c e up k {Q = AtEnd c e up k path} (load rs)
            (speed_up c ++ ending c.use_controller_bdaddr null a) v (load-After v h₁)
            (λ u h₂ same'. second_After null a u read (same' ∙ same ∙ from) h₂))

  -- With one reply for each of its commands, a configuration that finds a patch file sends exactly
  -- the commands of `configuration`, in that order and the file's records unchanged; then it is
  -- over, the file is closed, and the stack is told once of the success. The stack is willing,
  -- no file name is configured, and the controller's own address, if it is to be used, is in the
  -- reply and is all zeros exactly if `null` is true.
  pub configuration_lem :
      (null : Bool) (w : World)
      → Addressed c k null
      → w.cbacks ≡ true
      → w.hw.fw_patchfile_path ≡ path
      → w.hw.fw_patchfile_name ≡ []
      → (sends (hw_config_start c e w).trace ≡ sends w.trace + 1)
        × (w' : World) × Exchanged c e k
            (length (rest_of_configuration c null w.bd_addr rs))
            (hw_config_start c e w)
            w'
        × Configured
            (fw_reports w.trace)
            (reverse (configuration c null w.bd_addr rs) ++ commands w.trace)
            w'
  configuration_lem null w read back at unnamed =
      let u : World = hw_config_start c e w in
      let (h, first) = start_Searching c e up k path w back at unnamed in
      let (v, ran, there, adds) = rest_After null w.bd_addr u read first.address h in
      let (w', ran', done) = last_turn c e up k path v there in
      (
        sends-Adds _ w u first,
        w',
        record { before = v; ran = ran; sent = sends-Adds _ u v adds; last = ran' },
        Configured-Adds _ w v w'
            (Adds-append ((bare_command hci_reset).bytes ∷ []) _ w u v first adds) done,
      )
