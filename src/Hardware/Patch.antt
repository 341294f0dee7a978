-- ===== src/Hardware/Patch.antt =====
-- The search for the firmware patch file in libbt/src/hardware.c.
use myir_bluetooth.Common.{
  ℕ, zero, suc, ◌+◌, ◌-◌, Bool, true, false, not, ◌&&◌, Option, none, some, List, [], ◌∷◌, ◌++◌,
  ◌==◌, ltb, leb, if◌then◌else◌, Bytes, codes, length, drop, ◌>>=◌,
}
use mathlib.Core.List.{reverse}
use myir_bluetooth.Platform.{Env, list_dir}
use myir_bluetooth.World.{World, log}

-- `toupper` and `isdigit` of the C locale, and `strstr`.
unfoldable pub toupper : ℕ → ℕ
toupper ch = if leb b'a' ch && leb ch b'z' then ch - 32 else ch

abbrev pub isdigit : ℕ → Bool
isdigit ch = leb b'0' ch && leb ch b'9'

unfoldable pub has_prefix : Bytes → Bytes → Bool
has_prefix [] s = true
has_prefix (x ∷ p) [] = false
has_prefix (x ∷ p) (y ∷ s) = x == y && has_prefix p s

-- The rest of the text from the first occurrence on.
unfoldable pub strstr : Bytes → Bytes → Option Bytes
unfolding has_prefix
strstr [] needle = if has_prefix needle [] then some [] else none
strstr (x ∷ s) needle =
    let later = strstr s needle in if has_prefix needle (x ∷ s) then some (x ∷ s) else later

-- The byte at the front, the NUL of a string that has ended, and what is behind it.
abbrev pub front : Bytes → ℕ
front [] = 0
front (x ∷ s) = x

abbrev pub behind : Bytes → Bytes
behind [] = []
behind (x ∷ s) = s

-- The loop of `hw_strncmp` from position `i` on, over the `n` positions left. Its callers let it
-- pass no string's end: one of the strings has at least that many bytes, none of them NUL.
unfoldable pub strncmp_from : ℕ → Bytes → Bytes → ℕ → ℕ
unfolding toupper
strncmp_from i a b zero = 0
strncmp_from i a b (suc n) =
    let later = strncmp_from (suc i) (behind a) (behind b) n in
    if toupper (front a) == toupper (front b) then later else suc i

unfoldable pub hw_strncmp : Bytes → Bytes → ℕ → ℕ
unfolding strncmp_from
hw_strncmp a b len = strncmp_from 0 a b len

abbrev pub fw_patchfile_extension : Bytes
fw_patchfile_extension = codes ".hcd"

abbrev pub fw_patchfile_path_maxlen : ℕ
fw_patchfile_path_maxlen = 248

-- The two tests on a file of the directory.
unfoldable pub matches : Bytes → Bytes → Bool
unfolding hw_strncmp
matches chip name =
    hw_strncmp name chip (length chip) == 0
    && (leb 4 (length name)
        && hw_strncmp (drop (length name - 4) name) fw_patchfile_extension 4 == 0)

-- The loop over the directory: the first file that passes both tests.
unfoldable pub find_match : Bytes → List Bytes → Option Bytes
unfolding matches
find_match chip [] = none
find_match chip (name ∷ names) =
    let later = find_match chip names in if matches chip name then some name else later

-- The path's last byte is not '/'. For an empty path the source reads the byte in front of it; the
-- compiled path is never empty.
unfoldable pub needs_slash : Bytes → Bool
needs_slash [] = true
needs_slash (x ∷ []) = not (x == b'/')
needs_slash (x ∷ y ∷ s) = needs_slash (y ∷ s)

-- Path, slash and file name.
unfoldable pub join : Bytes → Bytes → Bytes
join path name = path ++ ((if needs_slash path then b'/' ∷ [] else []) ++ name)

-- The backward scan over the chip's name, last byte first: what is left before the first byte that
-- is no digit and no M, unless only three bytes are left.
unfoldable pub scan_back : Bytes → Option Bytes
scan_back [] = none
scan_back (x ∷ s) =
    let later = scan_back s in
    if leb (length (x ∷ s)) 3
    then none
    else if not (isdigit x) && (not (x == b'M') && not (x == b'm'))
    then some s
    else later

-- The name with its revision cut off.
unfoldable pub cut_revision : Bytes → Option Bytes
unfolding scan_back
cut_revision chip = elim (scan_back (reverse chip)) [ none ↦ none | some s ↦ some (reverse s) ]

-- The state, whether a file was found, and what the caller's buffer holds: the path or the name.
pub record Found : Type 0 where
  pub world : World
  pub found : Bool
  pub text : Bytes

module _ (e : Env) where
  -- `room` is the size of the caller's buffer: `none` is a write past it, or fuel that ran out.
  -- The text and its NUL are written; with a directory's file, 248 zeros first.
  unfoldable pub store_path : ℕ → Bytes → Bytes → World → Option Found
  store_path room path name w =
      let text : Bytes = join path name in
      if ltb (length text) room
      then some (record { world = w; found = true; text = text })
      else none

  unfoldable pub store_found : ℕ → Bytes → Bytes → Bytes → World → Option Found
  store_found room chip path name w =
      if ltb fw_patchfile_path_maxlen (length name + length path)
      then some (record { world = w; found = false; text = chip })
      else if leb fw_patchfile_path_maxlen room
      then store_path room path name w
      else none

  -- The files of the directory.
  unfoldable pub search_dir : ℕ → Bytes → Bytes → List Bytes → World → Option Found
  search_dir room chip path names w = elim (find_match chip names) [
    | none ↦ some (record { world = w; found = false; text = chip })
    | some name ↦ store_found room chip path name w
  ]

  -- Behind the loop: without a file, again with the name cut, if it can be cut.
  unfoldable pub retry : (Bytes → World → Option Found) → Bytes → Found → Option Found
  retry again chip r = elim r.found [
    | true ↦ some r
    | false ↦ elim (cut_revision chip) [ none ↦ some r | some shorter ↦ again shorter r.world ]
  ]

  unfoldable pub hw_config_findpatch : ℕ → ℕ → Bytes → World → Option Found
  hw_config_findpatch zero room chip w = none
  hw_config_findpatch (suc fuel) room chip w =
      let path : Bytes = w.hw.fw_patchfile_path in
      let again : (Bytes → World → Option Found) = hw_config_findpatch fuel room in
      if ltb 0 (length w.hw.fw_patchfile_name)
      then store_path room path w.hw.fw_patchfile_name w
      else (let dir : Option (List Bytes) = e.dir_answer w.trace path in
          let w₁ : World = log (list_dir path dir) w in
          elim dir [
            | none ↦ some (record { world = w₁; found = false; text = chip })
            | some names ↦ search_dir room chip path names w₁ >>= retry again chip
          ])
