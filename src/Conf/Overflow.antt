-- ===== src/Conf/Overflow.antt =====
-- A configuration file with a name too long for `fw_patchfile_name` of libbt/src/hardware.c.
use mathlib.Core.List.{reverse, reverse-cons, append_assoc, append-nil}
use myir_bluetooth.Common.{
  ℕ, ◌+◌, ◌-◌, ◌≤◌, ◌<◌, false, ◌||◌, none, some, [], ◌∷◌, ◌++◌, ◌≡◌, ◌≢◌, arith, Bytes, codes,
  length, refl, ap, All, All-append, ◌∙◌, ◌==◌, sym, inl, inr,
}
use myir_bluetooth.Conf.Bounds.{conf_found, load_line_entry}
use myir_bluetooth.Conf.Entries.{parse_line-Entry}
use myir_bluetooth.Conf.Lines.{split_lines, lines, conf_max_line_len}
use myir_bluetooth.Conf.Loading.{
  hw_set_patch_file_name, set_entry, load_lines, vnd_load_conf, fw_patchfile_name_size,
}
use myir_bluetooth.Conf.Tokens.{IsLetter, Entry}
use myir_bluetooth.Config.{Config}
use myir_bluetooth.Platform.{Env}
use myir_bluetooth.World.{World}

-- The rest of a text that is shorter than the buffer and has no newline is the end of one line.
one_line :
    (room : ℕ) (line text : Bytes)
    → length text < room
    → All (λ x. x ≢ 10) text
    → 0 < length line + length text
    → split_lines room line text ≡ (reverse line ++ text) ∷ []
unfolding split_lines
one_line room [] [] fits plain some_byte = absurd (omega arith)
one_line room (x ∷ line) [] fits plain some_byte =
    ap (λ s. s ∷ []) (sym (append-nil (reverse (x ∷ line))))
one_line room line (x ∷ text) fits plain some_byte =
    let more : (x == b'\n' || room == 1) ≡ false = ground (arith, plain.0) in
    let rest = one_line (room - 1) (x ∷ line) text (omega arith) plain.1 (omega arith) in
    rw more (
      rest
      ∙ ap (λ s. (s ++ text) ∷ []) (reverse-cons x line)
      ∙ ap (λ s. s ∷ []) (append_assoc (reverse line) (x ∷ []) text))

no_newline : (s : Bytes) → All IsLetter s → All (λ x. x ≢ 10) s
no_newline [] h = tt
no_newline (x ∷ s) h = let (_, _, line_end, _, _) = h.0 in (line_end, no_newline s h.1)

abbrev key : Bytes
key = codes "FwPatchFileName"

key_word : All IsLetter key
key_word = ground arith

key_plain : All (λ x. x ≢ 10) (codes "FwPatchFileName=")
key_plain = ground arith

key-Entry :
    (value : Bytes) → All IsLetter value → 0 < length value → Entry (key ++ (61 ∷ value)) key value
key-Entry value word some_byte = record {
  lead = [];
  between = 61 ∷ [];
  rest = [];
  layout = ap (λ s. key ++ (61 ∷ s)) (sym (append-nil value));
  plain = ground arith;
  lead_gap = tt;
  between_gap = (inr (inl refl), tt);
  parted = omega arith;
  name_word = key_word;
  value_word = word;
  named = omega arith;
  valued = some_byte;
  end = tt;
}

module _ (c : Config) (e : Env) where
  patch_name_overflow :
      (value : Bytes) (w : World)
      → fw_patchfile_name_size ≤ length value
      → set_entry c e key value w ≡ none
  unfolding set_entry hw_set_patch_file_name
  patch_name_overflow value w long = ground arith

  -- A file that is the one line "FwPatchFileName=" and a value without blanks, tabs, line ends and
  -- equal signs, of 128 to 238 bytes, which the buffer for a line has room for: loading the file
  -- writes past the end of the buffer for the name.
  pub vnd_load_conf_overflow :
      (path value : Bytes) (w : World)
      → e.conf_answer path ≡ some (codes "FwPatchFileName=" ++ value)
      → All IsLetter value
      → 128 ≤ length value
      → length value ≤ 238
      → vnd_load_conf c e path w ≡ none
  unfolding load_lines lines
  vnd_load_conf_overflow path value w found word long short =
      let text : Bytes = key ++ (61 ∷ value) in
      let plain : All (λ x. x ≢ 10) text =
        All-append (λ x. x ≢ 10) (codes "FwPatchFileName=") value key_plain
          (no_newline value word) in
      let alone = one_line conf_max_line_len [] text (omega arith) plain (omega arith) in
      let entry = parse_line-Entry text key value (key-Entry value word (omega arith)) in
      let stuck = load_line_entry c e text w entry ∙ patch_name_overflow value w long in
      conf_found c e path text w found ∙ ap (λ l. load_lines c e l w) alone ∙ rw stuck refl
