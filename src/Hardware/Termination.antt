-- ===== src/Hardware/Termination.antt =====
-- The search for a patch file ends, and it stays inside the buffer that it is given.
use myir_bluetooth.Common.{
  ℕ, zero, suc, ◌+◌, ◌≤◌, ◌<◌, true, false, Option, none, some, List, [], ◌∷◌, ◌≡◌, ◌⊎◌, inl, inr,
  refl, arith, Bytes, length, length-append, length-reverse, Option-cases, Bool-cases, ltb,
}
use mathlib.Core.List.{reverse}
use myir_bluetooth.Hardware.Patch.{
  fw_patchfile_path_maxlen, find_match, join, needs_slash, scan_back, cut_revision, Found,
  store_path, store_found, search_dir, retry, hw_config_findpatch,
}
use myir_bluetooth.Platform.{Env, list_dir}
use myir_bluetooth.World.{World, log}

scan_back_shorter : (s : Bytes) {t : Bytes} → scan_back s ≡ some t → length t < length s
unfolding scan_back
scan_back_shorter [] h = absurd (ground arith)
scan_back_shorter (x ∷ s) {t} h = ground (arith, scan_back_shorter s {t = t})

cut_revision_shorter :
    (chip : Bytes) {t : Bytes} → cut_revision chip ≡ some t → length t < length chip
unfolding cut_revision
cut_revision_shorter chip h = elim (Option-cases (scan_back (reverse chip))) [
  | inl whole ↦ absurd (ground arith)
  | inr (s, cut) ↦
      ground (arith, length-reverse s, length-reverse chip, scan_back_shorter (reverse chip) cut)
]

pub join_size : (path name : Bytes) → length (join path name) ≤ length path + length name + 1
unfolding join
join_size path name = elim (Bool-cases (needs_slash path)) [
  | inl slash ↦ ground (arith, length-append path (47 ∷ name))
  | inr ends ↦ ground (arith, length-append path name)
]

module _ (e : Env) (room : ℕ) where
  -- The configured name fits into the buffer behind the path, or none is configured.
  abbrev pub Fits : World → Type 0
  Fits w =
      (length w.hw.fw_patchfile_name ≡ 0)
      ⊎ (length w.hw.fw_patchfile_path + length w.hw.fw_patchfile_name + 1 < room)

  store_path_total :
      (path name : Bytes) (w : World)
      → length path + length name + 1 < room
      → (r : Found) × (store_path e room path name w ≡ some r) × (r.found ≡ true)
  unfolding store_path
  store_path_total path name w small =
      let size = join_size path name in
      (record { world = w; found = true; text = join path name }, ground arith, refl)

  store_found_total :
      (chip path name : Bytes) (w : World)
      → fw_patchfile_path_maxlen + 2 ≤ room
      → (r : Found) × (store_found e room chip path name w ≡ some r) × (r.world.hw ≡ w.hw)
  unfolding store_found store_path
  store_found_total chip path name w large =
      let size = join_size path name in
      elim (Bool-cases (ltb fw_patchfile_path_maxlen (length name + length path))) [
        | inl long ↦ (record { world = w; found = false; text = chip }, ground arith, refl)
        | inr short ↦
            (record { world = w; found = true; text = join path name }, ground arith, refl)
      ]

  search_dir_total :
      (chip path : Bytes) (names : List Bytes) (w : World)
      → fw_patchfile_path_maxlen + 2 ≤ room
      → (r : Found) × (search_dir e room chip path names w ≡ some r) × (r.world.hw ≡ w.hw)
  unfolding search_dir
  search_dir_total chip path names w large = elim (Option-cases (find_match chip names)) [
    | inl missing ↦ (record { world = w; found = false; text = chip }, ground arith, refl)
    | inr (name, here) ↦
        (let (r, stored, same) = store_found_total chip path name w large in
          (r, ground arith, same))
  ]

  retry_total :
      (again : Bytes → World → Option Found) (chip : Bytes) (r : Found)
      → ((shorter : Bytes)
          → length shorter < length chip
          → (q : Found) × (again shorter r.world ≡ some q))
      → (q : Found) × (retry e again chip r ≡ some q)
  unfolding retry
  retry_total again chip r each = elim (Bool-cases r.found) [
    | inl found ↦ (r, ground arith)
    | inr missed ↦ elim (Option-cases (cut_revision chip)) [
      | inl whole ↦ (r, ground arith)
      | inr (shorter, cut) ↦
          (let (q, at) = each shorter (cut_revision_shorter chip cut) in (q, ground arith))
    ]
  ]

  -- With more rounds of fuel than the chip's name has bytes, a buffer of at least 250 bytes, and
  -- room in it for the configured path and name, if a name is configured, the search returns a
  -- result, whatever the directories hold.
  pub hw_config_findpatch_total :
      (fuel : ℕ) (chip : Bytes) (w : World)
      → length chip < fuel
      → fw_patchfile_path_maxlen + 2 ≤ room
      → Fits w
      → (r : Found) × (hw_config_findpatch e fuel room chip w ≡ some r)
  unfolding hw_config_findpatch
  hw_config_findpatch_total zero chip w enough large fits = absurd (omega arith)
  hw_config_findpatch_total (suc fuel) chip w enough large fits =
      let path : Bytes = w.hw.fw_patchfile_path in
      elim (Bool-cases (ltb 0 (length w.hw.fw_patchfile_name))) [
        | inl named ↦
            (let (r, stored, _) = store_path_total path w.hw.fw_patchfile_name w (ground arith) in
              (r, ground arith))
        | inr unnamed ↦ elim (Option-cases (e.dir_answer w.trace path)) [
          | inl closed ↦ (
            record { world = log (list_dir path none) w; found = false; text = chip },
            ground arith,
          )
          | inr (names, listed) ↦
              let (f, found, same) =
                search_dir_total chip path names (log (list_dir path (some names)) w) large in
              let (q, at) = retry_total (hw_config_findpatch e fuel room) chip f (λ shorter less.
                hw_config_findpatch_total fuel shorter f.world (omega arith) large
                  (ground arith)) in
              (q, ground arith)
        ]
      ]
