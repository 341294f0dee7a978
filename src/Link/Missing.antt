-- ===== src/Link/Missing.antt =====
-- A configuration whose patch file's directory cannot be opened.
use myir_bluetooth.Common.{
  ℕ, ◌+◌, ◌≤◌, true, false, none, some, List, [], ◌∷◌, ◌++◌, Bytes, ◌≡◌, arith, length, drop, sym,
  ◌∙◌,
}
use mathlib.Core.List.{reverse}
use myir_bluetooth.Config.{Config}
use myir_bluetooth.Hardware.Handler.{dispatch, hw_config_start}
use myir_bluetooth.Hardware.Hci.{
  hci_reset, hci_read_local_name, hci_evt_cmd_cmpl_local, hci_vsc_write_bd_addr, bare_command,
  bd_addr_command,
}
use myir_bluetooth.Hardware.Patch.{hw_config_findpatch}
use myir_bluetooth.Hardware.Setup.{
  search_by_name, on_patch_found, on_read_local_name, or_set_bdaddr, hw_config_set_bdaddr,
}
use myir_bluetooth.Hardware.Naming.{chip_name, c_string, upcase_name}
use myir_bluetooth.Hardware.Totality.{chip_name_sizes}
use myir_bluetooth.Ledger.{fw_reports, sends}
use myir_bluetooth.Link.Exchange.{
  speed_up, After, After-append, speed_After, name_After, complete_turn, start_Searching,
  After-Next,
}
use myir_bluetooth.Link.Reports.{Configured, Configured-Adds, sends-Adds, Adds-append, Searching}
use myir_bluetooth.Link.Peers.{Exchanged, Willing, Controller, commands}
use myir_bluetooth.Link.Sending.{address-Sent}
use myir_bluetooth.Link.Steps.{Waits, Sent, served, spare, served-Waits, turn-Sent}
use myir_bluetooth.Platform.{Env, Trace, list_dir}
use myir_bluetooth.World.{World, BdAddr, start, read_local_name, set_bd_addr, log}

-- The controller's name is read, and the directory `path` is not there.
pub record Lacks (c : Config) (e : Env) (k : Controller) (path : Bytes) : Type 0 where
  pub raw : Bytes
  pub upcased :
      upcase_name 0 (drop hci_evt_cmd_cmpl_local (k.reply hci_read_local_name).bytes) ≡ some raw
  pub space :
      (chip_name c (c_string raw)).offset + (chip_name c (c_string raw)).written ≤ length raw
  pub absent : (t : Trace) → e.dir_answer t path ≡ none

-- The commands of a configuration without a patch file, behind the first reset and with it.
abbrev pub rest_of_plain : Config → BdAddr → List Bytes
rest_of_plain c address =
    speed_up c ++ ((bare_command hci_read_local_name).bytes ∷ (bd_addr_command address).bytes ∷ [])

abbrev pub plain_configuration : Config → BdAddr → List Bytes
plain_configuration c address = (bare_command hci_reset).bytes ∷ rest_of_plain c address

module _ (c : Config) (e : Env) (up : Willing e) (k : Controller) (path : Bytes)
    (lack : Lacks c e k path) where
  open lack use {raw, upcased, space, absent}

  abbrev unfound : World → World
  unfound u =
      log (list_dir path none)
        (record u { hw = record u.hw { local_chip_name = (chip_name c (c_string raw)).stored } })

  search_lem :
      (u : World)
      → u.hw.fw_patchfile_path ≡ path
      → u.hw.fw_patchfile_name ≡ []
      → search_by_name c e raw u
        ≡ some (record {
          world = unfound u;
          found = false;
          text = (chip_name c (c_string raw)).p_name;
        })
  unfolding search_by_name hw_config_findpatch
  search_lem u at unnamed = ground (arith, absent u.trace, chip_name_sizes c (c_string raw))

  -- The address is written at once.
  fallback-Sent :
      (addr : ℕ) (u : World)
      → Waits read_local_name false none hci_read_local_name u
      → Sent 0 0
          (bd_addr_command u.bd_addr).bytes
          set_bd_addr
          false
          none
          hci_vsc_write_bd_addr
          u
          (hw_config_set_bdaddr c e addr (unfound u))
  fallback-Sent addr u h =
      let s =
        address-Sent c e up 0 {s = read_local_name} {f = none} {opcode = hci_read_local_name} false
          addr (unfound u) (ground arith) in
      ground arith

  read_local_name_lem :
      (addr : ℕ) (u : World)
      → u.hw.fw_patchfile_path ≡ path
      → u.hw.fw_patchfile_name ≡ []
      → on_read_local_name c e (k.reply hci_read_local_name) addr u
        ≡ some (hw_config_set_bdaddr c e addr (unfound u))
  unfolding on_read_local_name on_patch_found or_set_bdaddr
  read_local_name_lem addr u at unnamed = ground (arith, upcased, search_lem u at unnamed)

  address_After :
      (a : BdAddr) (w : World)
      → w.bd_addr ≡ a
      → Searching read_local_name false hci_read_local_name path w
      → After c e up k
          (Searching set_bd_addr false hci_vsc_write_bd_addr path)
          ((bd_addr_command a).bytes ∷ [])
          w
  unfolding dispatch
  address_After a w from (h, at, unnamed) =
      let u : World = served c e up k w in
      let addr : ℕ = spare c e up k w in
      rw (sym from) (
        After-Next c e up k 0 path w at unnamed (
          turn-Sent c e up k 0 0 hci_read_local_name w _ (omega arith) h
            (read_local_name_lem addr u at unnamed)
            (fallback-Sent addr u (served-Waits c e up k w h))))

  rest_After :
      (a : BdAddr) (w : World)
      → w.bd_addr ≡ a
      → Searching start false hci_reset path w
      → After c e up k
          (Searching set_bd_addr false hci_vsc_write_bd_addr path)
          (rest_of_plain c a)
          w
  rest_After a w from h =
      After-append c e up k {Q = Searching set_bd_addr false hci_vsc_write_bd_addr path}
        (speed_up c) _ w (speed_After c e up k path false w h)
        (λ v h₁ same.
          After-append c e up k {Q = Searching set_bd_addr false hci_vsc_write_bd_addr path}
            ((bare_command hci_read_local_name).bytes ∷ []) ((bd_addr_command a).bytes ∷ []) v
            (name_After c e up k path v h₁)
            (λ u h₂ same'. address_After a u (same' ∙ same ∙ from) h₂))

  -- Where the directory of the patch files cannot be opened, a configuration downloads nothing and
  -- sends exactly the commands of `plain_configuration`, in that order; with one reply for each it
  -- is over, and the stack is told once of the success. The stack is willing and no file name is
  -- configured.
  pub plain_configuration_lem :
      (w : World)
      → w.cbacks ≡ true
      → w.hw.fw_patchfile_path ≡ path
      → w.hw.fw_patchfile_name ≡ []
      → (sends (hw_config_start c e w).trace ≡ sends w.trace + 1)
        × (w' : World) × Exchanged c e k
            (length (rest_of_plain c w.bd_addr))
            (hw_config_start c e w)
            w'
        × Configured
            (fw_reports w.trace)
            (reverse (plain_configuration c w.bd_addr) ++ commands w.trace)
            w'
  plain_configuration_lem w back at unnamed =
      let u : World = hw_config_start c e w in
      let (h, first) = start_Searching c e up k path w back at unnamed in
      let (v, ran, there, adds) = rest_After w.bd_addr u first.address h in
      let (w', ran', done) = complete_turn c e up k path false v there in
      (
        sends-Adds _ w u first,
        w',
        record { before = v; ran = ran; sent = sends-Adds _ u v adds; last = ran' },
        Configured-Adds _ w v w'
            (Adds-append ((bare_command hci_reset).bytes ∷ []) _ w u v first adds) done,
      )
