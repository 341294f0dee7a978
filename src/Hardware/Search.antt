-- ===== src/Hardware/Search.antt =====
-- The search for the patch file as a relation, and what it finds.
use myir_bluetooth.Common.{
  ℕ, zero, suc, ◌+◌, ◌≤◌, ◌<◌, true, false, Option, none, some, List, [], ◌∷◌, ◌++◌, Bytes, ◌≡◌,
  refl, ap, All, ◌⊎◌, inl, inr, arith, length, Option-cases, Bool-cases, ◌>>=◌, bind_some, ltb, ◌∙◌,
}
use myir_bluetooth.Hardware.Patch.{
  Found, matches, find_match, join, cut_revision, store_path, store_found, search_dir, retry,
  hw_config_findpatch, fw_patchfile_path_maxlen,
}
use myir_bluetooth.Platform.{Env, list_dir}
use myir_bluetooth.World.{World, log}

-- No file in `names` matches.
abbrev pub IsForeign : Bytes → List Bytes → Type 0
IsForeign chip names = All (λ name. matches chip name ≡ false) names

-- The first file that matches.
pub record First (chip name : Bytes) (names : List Bytes) : Type 0 where
  pub before : List Bytes
  pub after : List Bytes
  pub place : names ≡ before ++ (name ∷ after)
  pub foreign : IsForeign chip before
  pub match : matches chip name ≡ true

-- No file in `names` can be taken: none matches, or the first that does has too long a path.
pub data Fruitless (chip path : Bytes) (names : List Bytes) : Type 0 where
  unmatched : IsForeign chip names → Fruitless chip path names
  oversized :
      (name : Bytes)
      → First chip name names
      → fw_patchfile_path_maxlen < length name + length path
      → Fruitless chip path names

-- `Searched e room r chip w`: from state `w`, with the text `chip` in a buffer of `room` bytes, the
-- search ends in `r`. A file is taken from the configuration; if it names none, from the directory's
-- listing as the first that matches; and only if none can be taken there, the name is cut and the
-- directory is read again, until the name cannot be cut.
pub data Searched (e : Env) (room : ℕ) (r : Found) : Bytes → World → Type 0 where
  configured :
      (chip : Bytes) (w : World)
      → 0 < length w.hw.fw_patchfile_name
      → length (join w.hw.fw_patchfile_path w.hw.fw_patchfile_name) < room
      → r ≡ record {
        world = w;
        found = true;
        text = join w.hw.fw_patchfile_path w.hw.fw_patchfile_name;
      }
      → Searched e room r chip w
  no_dir :
      (chip : Bytes) (w : World)
      → w.hw.fw_patchfile_name ≡ []
      → e.dir_answer w.trace w.hw.fw_patchfile_path ≡ none
      → r ≡ record {
        world = log (list_dir w.hw.fw_patchfile_path none) w;
        found = false;
        text = chip;
      }
      → Searched e room r chip w
  hit :
      (chip : Bytes) (w : World) (names : List Bytes) (name : Bytes)
      → w.hw.fw_patchfile_name ≡ []
      → e.dir_answer w.trace w.hw.fw_patchfile_path ≡ some names
      → First chip name names
      → length name + length w.hw.fw_patchfile_path ≤ fw_patchfile_path_maxlen
      → fw_patchfile_path_maxlen ≤ room
      → length (join w.hw.fw_patchfile_path name) < room
      → r ≡ record {
        world = log (list_dir w.hw.fw_patchfile_path (some names)) w;
        found = true;
        text = join w.hw.fw_patchfile_path name;
      }
      → Searched e room r chip w
  miss :
      (chip : Bytes) (w : World) (names : List Bytes)
      → w.hw.fw_patchfile_name ≡ []
      → e.dir_answer w.trace w.hw.fw_patchfile_path ≡ some names
      → Fruitless chip w.hw.fw_patchfile_path names
      → cut_revision chip ≡ none
      → r ≡ record {
        world = log (list_dir w.hw.fw_patchfile_path (some names)) w;
        found = false;
        text = chip;
      }
      → Searched e room r chip w
  cut :
      (chip shorter : Bytes) (w : World) (names : List Bytes)
      → w.hw.fw_patchfile_name ≡ []
      → e.dir_answer w.trace w.hw.fw_patchfile_path ≡ some names
      → Fruitless chip w.hw.fw_patchfile_path names
      → cut_revision chip ≡ some shorter
      → Searched e room r shorter (log (list_dir w.hw.fw_patchfile_path (some names)) w)
      → Searched e room r chip w

no_bytes : (s : Bytes) → length s ≤ 0 → s ≡ []
no_bytes [] h = refl
no_bytes (x ∷ s) h = absurd (omega arith)

match_cases :
    (chip : Bytes) (names : List Bytes)
    → ((find_match chip names ≡ none) × IsForeign chip names)
      ⊎ ((name : Bytes) × (find_match chip names ≡ some name) × First chip name names)
unfolding find_match
match_cases chip [] = inl (refl, tt)
match_cases chip (x ∷ names) = elim (Bool-cases (matches chip x)) [
  | inl here ↦ inr (
    x,
    ground arith,
    record { before = []; after = names; place = refl; foreign = tt; match = here },
  )
  | inr past ↦ elim (match_cases chip names) [
    | inl (nothing, rest) ↦ inl (ground arith, (past, rest))
    | inr (name, at, f) ↦ inr (
      name,
      ground arith,
      record {
        before = x ∷ f.before;
        after = f.after;
        place = ap (λ s. x ∷ s) f.place;
        foreign = (past, f.foreign);
        match = f.match;
      },
    )
  ]
]

module _ (e : Env) (room : ℕ) where
  search_dir_cases :
      (chip path : Bytes) (names : List Bytes) (w : World) {r : Found}
      → search_dir e room chip path names w ≡ some r
      → ((name : Bytes) × First chip name names
          × (length name + length path ≤ fw_patchfile_path_maxlen)
          × (fw_patchfile_path_maxlen ≤ room)
          × (length (join path name) < room)
          × (r ≡ record { world = w; found = true; text = join path name }))
        ⊎ ((r ≡ record { world = w; found = false; text = chip }) × Fruitless chip path names)
  unfolding search_dir store_found store_path
  search_dir_cases chip path names w h = elim (match_cases chip names) [
    | inl (nothing, none_fits) ↦ inr (ground arith, unmatched none_fits)
    | inr (name, at, first) ↦
        elim (Bool-cases (ltb fw_patchfile_path_maxlen (length name + length path))) [
          | inl over ↦ inr (ground arith, oversized name first (ground arith))
          | inr fits ↦ inl (name, first, ground arith, ground arith, ground arith, ground arith)
        ]
  ]

  retry_cases :
      (again : Bytes → World → Option Found) (chip : Bytes) (s : Found) {r : Found}
      → retry e again chip s ≡ some r
      → ((r ≡ s) × ((s.found ≡ true) ⊎ (cut_revision chip ≡ none)))
        ⊎ ((s.found ≡ false)
            × (shorter : Bytes) × (cut_revision chip ≡ some shorter)
            × (again shorter s.world ≡ some r))
  unfolding retry
  retry_cases again chip s h = elim (Bool-cases s.found) [
    | inl found ↦ inl (ground arith, inl found)
    | inr lost ↦ elim (Option-cases (cut_revision chip)) [
      | inl whole ↦ inl (ground arith, inr whole)
      | inr (shorter, at) ↦ inr (lost, shorter, at, ground arith)
    ]
  ]

  module _ (chip : Bytes) (w : World) where
    abbrev listed : List Bytes → World
    listed names = log (list_dir w.hw.fw_patchfile_path (some names)) w

    -- The end of one round over a directory.
    round_Searched :
        (again : Bytes → World → Option Found) (names : List Bytes) {r : Found}
        → ((shorter : Bytes) (v : World) → again shorter v ≡ some r → Searched e room r shorter v)
        → w.hw.fw_patchfile_name ≡ []
        → e.dir_answer w.trace w.hw.fw_patchfile_path ≡ some names
        → (search_dir e room chip w.hw.fw_patchfile_path names (listed names)
            >>= retry e again chip)
          ≡ some r
        → Searched e room r chip w
    round_Searched again names ih unnamed dir h =
        let (s, first, rest) = bind_some (search_dir e room chip _ names _) _ h in
        elim (search_dir_cases chip w.hw.fw_patchfile_path names _ first) [
          | inl (name, at, short, size, fits, found) ↦ elim (retry_cases again chip s rest) [
            | inl (same, _) ↦ hit chip w names name unnamed dir at short size fits (same ∙ found)
            | inr (lost, _, _, _) ↦ absurd (ground arith)
          ]
          | inr (missed, fruitless) ↦ elim (retry_cases again chip s rest) [
            | inl (same, inl found) ↦ absurd (ground arith)
            | inl (same, inr whole) ↦ miss chip w names unnamed dir fruitless whole (same ∙ missed)
            | inr (lost, shorter, at, later) ↦
                cut chip shorter w names unnamed dir fruitless at
                  (ih shorter _ (rw missed at later))
          ]
        ]

  -- Whatever the function returns, with any fuel, is a result of the search: the configured file if
  -- one is named; otherwise the first matching file of the directory, if the path fits, for the
  -- longest of the names that are left after cutting for which there is one; and no file only if
  -- the directory cannot be opened or no name has one.
  pub findpatch-Searched :
      (fuel : ℕ) (chip : Bytes) (w : World) {r : Found}
      → hw_config_findpatch e fuel room chip w ≡ some r
      → Searched e room r chip w
  unfolding hw_config_findpatch store_path
  findpatch-Searched zero chip w h = cc
  findpatch-Searched (suc fuel) chip w {r} h =
      elim (Bool-cases (ltb 0 (length w.hw.fw_patchfile_name))) [
        | inl named ↦ configured chip w (ground arith) (ground arith) (ground arith)
        | inr short ↦
            let unnamed : w.hw.fw_patchfile_name ≡ [] = no_bytes _ (ground arith) in
            elim (Option-cases (e.dir_answer w.trace w.hw.fw_patchfile_path)) [
              | inl closed ↦ no_dir chip w unnamed closed (ground arith)
              | inr (names, dir) ↦
                  round_Searched chip w (hw_config_findpatch e fuel room) names
                    (λ shorter v later. findpatch-Searched fuel shorter v later) unnamed dir
                    (ground arith)
            ]
      ]
