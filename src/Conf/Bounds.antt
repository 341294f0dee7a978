-- ===== src/Conf/Bounds.antt =====
-- Which values fit into the buffers that they are copied to.
use myir_bluetooth.Common.{
  ℕ, ◌+◌, ◌-◌, ◌≤◌, ◌<◌, Bool, true, false, ◌&&◌, ◌||◌, Option, none, some, List, [], ◌∷◌, ◌≡◌,
  refl, sym, ◌∙◌, ap, arith, ◌==◌, Bytes, codes, length, length-reverse, equal, equal_lem,
  Bool-cases, Option-cases, inl, inr, ◌⊎◌, if◌then◌else◌, All,
}
use myir_bluetooth.Conf.Lines.{split_lines, lines, parse_line, conf_max_line_len}
use myir_bluetooth.Conf.Loading.{
  hw_set_patch_file_path, hw_set_patch_file_name, hw_set_patch_settlement_delay, set_entry,
  load_line, load_lines, vnd_load_conf, fw_patchfile_name_size,
}
use myir_bluetooth.Conf.Tokens.{Entry-size, parse_line_lem}
use myir_bluetooth.Config.{Config}
use myir_bluetooth.Platform.{Env}
use myir_bluetooth.Userial.Port.{userial_set_port}
use myir_bluetooth.World.{World}

abbrev pub IsShort : Bytes → Type 0
IsShort line = length line ≤ conf_max_line_len

split_lines-IsShort :
    (room : ℕ) (line text : Bytes)
    → 0 < room
    → room + length line ≡ conf_max_line_len
    → All IsShort (split_lines room line text)
unfolding split_lines
split_lines-IsShort room [] [] h k = tt
split_lines-IsShort room (x ∷ line) [] h k = (omega (arith, length-reverse (x ∷ line)), tt)
split_lines-IsShort room line (x ∷ s) h k = elim (Bool-cases (x == b'\n' || room == 1)) [
  | inl full ↦ rw full (
    omega (arith, length-reverse (x ∷ line)),
    split_lines-IsShort conf_max_line_len [] s (omega arith) (omega arith),
  )
  | inr more ↦ rw more (split_lines-IsShort (room - 1) (x ∷ line) s (ground arith) (ground arith))
]

lines-IsShort : (text : Bytes) → All IsShort (lines text)
unfolding lines
lines-IsShort text = split_lines-IsShort conf_max_line_len [] text (omega arith) (omega arith)

-- A line does not give FwPatchFileName a value that its buffer cannot hold with a NUL.
abbrev pub NameFits : Bytes → Type 0
NameFits line =
    (value : Bytes)
    → parse_line line ≡ some (codes "FwPatchFileName", value)
    → length value < fw_patchfile_name_size

abbrev pub is_some : Option World → Bool
is_some none = false
is_some (some _) = true

is_some-result : (o : Option World) → is_some o ≡ true → (w : World) × (o ≡ some w)
is_some-result (some w) h = (w, refl)
is_some-result none h = absurd (ground arith)

is_some-if :
    (b : Bool) (x y : Option World)
    → (b ≡ false) ⊎ (is_some x ≡ true)
    → is_some y ≡ true
    → is_some (if b then x else y) ≡ true
is_some-if true x y h k = ground arith
is_some-if false x y h k = k

userial_set_port_some :
    (value : Bytes) (w : World) → length value < 256 → is_some (userial_set_port value w) ≡ true
unfolding userial_set_port
userial_set_port_some value w short = ground arith

patch_path_some :
    (value : Bytes) (w : World)
    → length value < 256
    → is_some (hw_set_patch_file_path value w) ≡ true
unfolding hw_set_patch_file_path
patch_path_some value w short = ground arith

patch_name_some :
    {b : Bool} (value : Bytes) (w : World)
    → (b ≡ false) ⊎ (length value < fw_patchfile_name_size)
    → (b ≡ false) ⊎ (is_some (hw_set_patch_file_name value w) ≡ true)
unfolding hw_set_patch_file_name
patch_name_some value w (inl other) = inl other
patch_name_some value w (inr small) = inr (ground arith)

module _ (c : Config) (e : Env) where
  set_entry_short :
      (name value : Bytes) (w : World)
      → length value < 256
      → (equal (codes "FwPatchFileName") name ≡ false) ⊎ (length value < fw_patchfile_name_size)
      → is_some (set_entry c e name value w) ≡ true
  unfolding set_entry
  set_entry_short name value w short fits =
      let delay : Option World =
        if c.runtime_tuning_enabled && equal (codes "FwPatchSettlementDelay") name
        then some (hw_set_patch_settlement_delay e value w)
        else some w in
      let delay_some : is_some delay ≡ true =
        is_some-if (c.runtime_tuning_enabled && equal (codes "FwPatchSettlementDelay") name)
          (some (hw_set_patch_settlement_delay e value w)) (some w) (inr refl) refl in
      let patch_name : Option World =
        if equal (codes "FwPatchFileName") name then hw_set_patch_file_name value w else delay in
      let patch_name_runs : is_some patch_name ≡ true =
        is_some-if (equal (codes "FwPatchFileName") name) (hw_set_patch_file_name value w) delay
          (patch_name_some value w fits) delay_some in
      let patch_path : Option World =
        if equal (codes "FwPatchFilePath") name
        then hw_set_patch_file_path value w
        else patch_name in
      is_some-if (equal (codes "UartPort") name) (userial_set_port value w) patch_path
        (inr (userial_set_port_some value w short))
        (is_some-if (equal (codes "FwPatchFilePath") name) (hw_set_patch_file_path value w)
          patch_name (inr (patch_path_some value w short)) patch_name_runs)

  set_entry_total :
      (name value : Bytes) (w : World)
      → length value < 256
      → (name ≡ codes "FwPatchFileName" → length value < fw_patchfile_name_size)
      → is_some (set_entry c e name value w) ≡ true
  set_entry_total name value w short fits =
      elim (Bool-cases (equal (codes "FwPatchFileName") name)) [
        | inl patch ↦ set_entry_short name value w short (inr (fits (sym (equal_lem _ _ patch))))
        | inr other ↦ set_entry_short name value w short (inl other)
      ]

  load_line-none :
      (line : Bytes) (w : World) → parse_line line ≡ none → load_line c e line w ≡ some w
  unfolding load_line
  load_line-none line w nothing = ground arith

  pub load_line_entry :
      (line : Bytes) {name value : Bytes} (w : World)
      → parse_line line ≡ some (name, value)
      → load_line c e line w ≡ set_entry c e name value w
  unfolding load_line
  load_line_entry line w entry = ground arith

  load_line_total :
      (line : Bytes) (w : World)
      → IsShort line
      → NameFits line
      → is_some (load_line c e line w) ≡ true
  load_line_total line w short fits = elim (Option-cases (parse_line line)) [
    | inl nothing ↦ ap is_some (load_line-none line w nothing)
    | inr ((name, value), entry) ↦
        ap is_some (load_line_entry line w entry)
        ∙ set_entry_total name value w
            (omega (arith, Entry-size line name value (parse_line_lem line entry), short))
            (λ patch. fits value (entry ∙ ap (λ n. some (n, value)) patch))
  ]

  load_lines_total :
      (rest : List Bytes) (w : World)
      → All IsShort rest
      → All NameFits rest
      → is_some (load_lines c e rest w) ≡ true
  unfolding load_lines
  load_lines_total [] w short fits = refl
  load_lines_total (line ∷ rest) w (s, short) (f, fits) =
      elim (Option-cases (load_line c e line w)) [
        | inl stuck ↦ absurd (ground (arith, load_line_total line w s f))
        | inr (w₁, loaded) ↦ rw loaded (load_lines_total rest w₁ short fits)
      ]

  conf_missing :
      (path : Bytes) (w : World) → e.conf_answer path ≡ none → vnd_load_conf c e path w ≡ some w
  unfolding vnd_load_conf
  conf_missing path w h = ground arith

  pub conf_found :
      (path text : Bytes) (w : World)
      → e.conf_answer path ≡ some text
      → vnd_load_conf c e path w ≡ load_lines c e (lines text) w
  unfolding vnd_load_conf
  conf_found path text w h = ground arith

  -- If no line of the file at `path` gives FwPatchFileName a value of 128 bytes or more, then
  -- loading the file overruns no buffer: it ends in a state. No condition on the other entries
  -- is needed.
  pub vnd_load_conf_total :
      (path : Bytes) (w : World)
      → ((text : Bytes) → e.conf_answer path ≡ some text → All NameFits (lines text))
      → (w' : World) × (vnd_load_conf c e path w ≡ some w')
  vnd_load_conf_total path w fits = elim (Option-cases (e.conf_answer path)) [
    | inl missing ↦ (w, conf_missing path w missing)
    | inr (text, found) ↦
        (let (w₁, loaded) =
            is_some-result _
              (load_lines_total (lines text) w (lines-IsShort text) (fits text found)) in
          (w₁, conf_found path text w found ∙ loaded))
  ]
