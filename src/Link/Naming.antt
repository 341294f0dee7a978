-- ===== src/Link/Naming.antt =====
-- `case HW_CFG_READ_LOCAL_NAME` with a chip whose patch file is in the directory.
use myir_bluetooth.Common.{
  ℕ, ◌+◌, ◌≤◌, ◌<◌, Bool, false, true, none, some, List, [], ◌∷◌, Bytes, ◌≡◌, refl, arith, length,
  drop, ==_iff,
}
use myir_bluetooth.Config.{Config}
use myir_bluetooth.Hardware.Handler.{dispatch, free_evt}
use myir_bluetooth.Hardware.Hci.{
  hci_read_local_name, hci_vsc_download_minidrv, hci_evt_cmd_cmpl_local, bare_command,
}
use myir_bluetooth.Hardware.Patch.{
  find_match, join, search_dir, store_found, store_path, retry, hw_config_findpatch,
  fw_patchfile_path_maxlen,
}
use myir_bluetooth.Hardware.Setup.{
  search_by_name, on_patch_found, on_read_local_name, or_set_bdaddr, send, set_fw_fd,
}
use myir_bluetooth.Hardware.Naming.{ChipName, chip_name, c_string, upcase_name}
use myir_bluetooth.Hardware.Termination.{join_size}
use myir_bluetooth.Hardware.Totality.{chip_name_sizes}
use myir_bluetooth.Link.Peers.{Willing, Controller, position, turns}
use myir_bluetooth.Link.Steps.{Waits, Adds, served, spare, turn-dispatch}
use myir_bluetooth.Platform.{Env, Trace, list_dir, open_file}
use myir_bluetooth.World.{World, read_local_name, dl_minidriver, log}

-- The name in the controller's reply leads to the file `name` of the directory `path`, which opens
-- as `fd`.
pub record Offers (c : Config) (e : Env) (k : Controller) (path name : Bytes) (fd : ℕ)
    : Type 0 where
  pub raw : Bytes
  pub upcased :
      upcase_name 0 (drop hci_evt_cmd_cmpl_local (k.reply hci_read_local_name).bytes) ≡ some raw
  pub names : List Bytes
  pub listed : (t : Trace) → e.dir_answer t path ≡ some names
  pub chosen : find_match (chip_name c (c_string raw)).p_name names ≡ some name
  pub short : length name + length path ≤ fw_patchfile_path_maxlen
  pub space : (chip_name c (c_string raw)).offset + fw_patchfile_path_maxlen ≤ length raw
  pub room : (chip_name c (c_string raw)).offset + length (join path name) < length raw
  pub opened : (t : Trace) → e.open_answer t (join path name) ≡ some fd

module _ (c : Config) (e : Env) (up : Willing e) (k : Controller) (path name : Bytes) (fd : ℕ)
    (offer : Offers c e k path name fd) where
  open offer use {raw, upcased, names, listed, chosen, short, space, room, opened}

  abbrev chip : ChipName
  chip = chip_name c (c_string raw)

  abbrev named : World → World
  named w = record w { hw = record w.hw { local_chip_name = chip.stored } }

  search_lem :
      (w : World)
      → w.hw.fw_patchfile_path ≡ path
      → w.hw.fw_patchfile_name ≡ []
      → search_by_name c e raw w
        ≡ some (record {
          world = log (list_dir path (some names)) (named w);
          found = true;
          text = join path name;
        })
  unfolding search_by_name hw_config_findpatch search_dir store_found store_path retry
  search_lem w at unnamed =
      ground (arith, listed w.trace, chosen, join_size path name, chip_name_sizes c (c_string raw))

  -- What the case runs to, from the state `u` after the buffer was received.
  abbrev found_world : World → World
  found_world u = log (list_dir path (some names)) (named u)

  abbrev opened_world : World → World
  opened_world u = set_fw_fd (some fd) (log (open_file (join path name) (some fd)) (found_world u))

  abbrev case_result : ℕ → World → World × Bool
  case_result addr u =
      send c e dl_minidriver hci_vsc_download_minidrv addr (bare_command hci_vsc_download_minidrv)
        (opened_world u)

  case_result-true : (addr : ℕ) (u : World) → (case_result addr u).1 ≡ true
  unfolding send
  case_result-true addr u = up.accepts (opened_world u).trace _ _

  read_local_name_lem :
      (addr : ℕ) (u : World)
      → u.hw.fw_patchfile_path ≡ path
      → u.hw.fw_patchfile_name ≡ []
      → on_read_local_name c e (k.reply hci_read_local_name) addr u ≡ some (case_result addr u)
  unfolding on_read_local_name on_patch_found or_set_bdaddr
  read_local_name_lem addr u at unnamed = ground (
    arith,
    upcased,
    search_lem u at unnamed,
    opened (found_world u).trace,
    case_result-true addr u,
  )

  -- The file is opened, and the controller is told to expect it.
  pub turn_opens :
      (w : World)
      → Waits read_local_name false none hci_read_local_name w
      → w.hw.fw_patchfile_path ≡ path
      → w.hw.fw_patchfile_name ≡ []
      → (w' : World) × (turns c e k 1 w ≡ some w')
        × Waits dl_minidriver false (some fd) hci_vsc_download_minidrv w'
        × Adds ((bare_command hci_vsc_download_minidrv).bytes ∷ []) w w'
        × (position fd w'.trace ≡ 0)
        × (w'.hw.fw_patchfile_path ≡ path)
        × (w'.hw.fw_patchfile_name ≡ [])
  unfolding dispatch send free_evt turns
  turn_opens w h at unnamed =
      let u : World = served c e up k w in
      let addr : ℕ = spare c e up k w in
      let r : World × Bool = case_result addr u in
      let proceeds : r.1 ≡ true = case_result-true addr u in
      let runs =
        turn-dispatch c e up k hci_read_local_name w r.0 (omega arith) h
          (ground (arith, read_local_name_lem addr u at unnamed, proceeds)) in
      (
        free_evt c e (k.reply hci_read_local_name) r.0,
        rw runs refl,
        ground (arith, proceeds),
        ground (arith, proceeds),
        ground (arith, proceeds, ==_iff fd fd),
        ground (arith, proceeds),
        ground (arith, proceeds),
      )
