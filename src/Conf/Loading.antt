-- ===== src/Conf/Loading.antt =====
-- The entries of the file and what they set.
use myir_bluetooth.Common.{
  ℕ, ◌&&◌, Option, none, some, List, [], ◌∷◌, ltb, if◌then◌else◌, Bytes, codes, length, equal,
  ◌>>=◌,
}
use myir_bluetooth.Conf.Lines.{lines, parse_line}
use myir_bluetooth.Config.{Config}
use myir_bluetooth.Platform.{Env}
use myir_bluetooth.Userial.Port.{userial_set_port}
use myir_bluetooth.World.{World}

abbrev pub fw_patchfile_path_size : ℕ
fw_patchfile_path_size = 256

abbrev pub fw_patchfile_name_size : ℕ
fw_patchfile_name_size = 128

-- `strcpy` into `fw_patchfile_path` and `fw_patchfile_name`.
unfoldable pub hw_set_patch_file_path : Bytes → World → Option World
hw_set_patch_file_path value w =
    if ltb (length value) fw_patchfile_path_size
    then some (record w { hw = record w.hw { fw_patchfile_path = value } })
    else none

unfoldable pub hw_set_patch_file_name : Bytes → World → Option World
hw_set_patch_file_name value w =
    if ltb (length value) fw_patchfile_name_size
    then some (record w { hw = record w.hw { fw_patchfile_name = value } })
    else none

unfoldable pub hw_set_patch_settlement_delay : Env → Bytes → World → World
hw_set_patch_settlement_delay e value w = record w {
  hw = record w.hw { settlement_delay = e.atoi value };
}

module _ (c : Config) (e : Env) where
  -- `conf_table`, searched by name; a name that it lacks sets nothing.
  unfoldable pub set_entry : Bytes → Bytes → World → Option World
  set_entry name value w =
      if equal (codes "UartPort") name
      then userial_set_port value w
      else if equal (codes "FwPatchFilePath") name
      then hw_set_patch_file_path value w
      else if equal (codes "FwPatchFileName") name
      then hw_set_patch_file_name value w
      else if c.runtime_tuning_enabled && equal (codes "FwPatchSettlementDelay") name
      then some (hw_set_patch_settlement_delay e value w)
      else some w

  unfoldable pub load_line : Bytes → World → Option World
  load_line line w = elim (parse_line line) [
    | none ↦ some w
    | some (name, value) ↦ set_entry name value w
  ]

  unfoldable pub load_lines : List Bytes → World → Option World
  load_lines [] w = some w
  load_lines (line ∷ rest) w = do w' ← load_line line w; load_lines rest w'

  unfoldable pub vnd_load_conf : Bytes → World → Option World
  vnd_load_conf path w = elim (e.conf_answer path) [
    | none ↦ some w
    | some text ↦ load_lines (lines text) w
  ]
