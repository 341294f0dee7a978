-- ===== src/Hardware/Totality.antt =====
-- When the configuration's handler returns: which events it can read without leaving their buffer.
use myir_bluetooth.Common.{
  ℕ, zero, suc, ◌+◌, ◌-◌, ◌≤◌, ◌<◌, ◌||◌, not, Bool, some, [], ◌∷◌, ◌≡◌, inl, inr, refl, arith, ltb,
  ◌==◌, Bytes, get_elem?, drop, length, length-drop, length-take, Bool-cases, Option-cases,
}
use myir_bluetooth.Config.{Config}
use myir_bluetooth.Hardware.Handler.{has_null_bdaddr, dispatch, with_buffer, hw_config_cback}
use myir_bluetooth.Hardware.Hci.{
  evt_opcode, hci_cmd_max_len, stream_to_uint16, hci_evt_cmd_cmpl_local, local_name_buffer_len,
}
use myir_bluetooth.Hardware.Patch.{Found, toupper}
use myir_bluetooth.Hardware.Setup.{search_by_name, on_read_local_name}
use myir_bluetooth.Hardware.Naming.{upcase_name, c_string, ChipName, chip_name, chip_4343}
use myir_bluetooth.Hardware.Termination.{Fits, hw_config_findpatch_total}
use myir_bluetooth.Platform.{Env, Evt, Call}
use myir_bluetooth.World.{
  World, HwState, idle, start, set_uart_clock, set_uart_baud_1, read_local_name, dl_minidriver,
  dl_fw_patch, set_uart_baud_2, set_bd_addr, read_bd_addr, call_alloc, log,
}

get_elem?_total : (s : Bytes) (i : ℕ) → i < length s → (x : ℕ) × (get_elem? s i ≡ some x)
get_elem?_total [] i h = absurd (omega arith)
get_elem?_total (x ∷ s) zero h = (x, refl)
get_elem?_total (x ∷ s) (suc i) h = get_elem?_total s i (omega arith)

-- The loop stops at a NUL at position `k` or before, but not before position 32; it keeps the
-- length and the NUL.
upcase_name_total :
    (i k : ℕ) (s : Bytes)
    → get_elem? s k ≡ some 0
    → local_name_buffer_len ≤ i + k
    → (t : Bytes) × (upcase_name i s ≡ some t) × (length t ≡ length s) × (get_elem? t k ≡ some 0)
unfolding upcase_name toupper
upcase_name_total i k [] h far = absurd (ground arith)
upcase_name_total i zero (x ∷ s) h far = (x ∷ s, ground arith, refl, h)
upcase_name_total i (suc k) (x ∷ s) h far =
    let (t, at, size, nul) = upcase_name_total (suc i) k s h (omega arith) in
    elim (Bool-cases (ltb i local_name_buffer_len || not (x == 0))) [
      | inl more ↦ (toupper x ∷ t, ground arith, omega arith, nul)
      | inr stop ↦ (x ∷ s, ground arith, refl, h)
    ]

c_string_le : (s : Bytes) (k : ℕ) → get_elem? s k ≡ some 0 → length (c_string s) ≤ k
unfolding c_string
c_string_le [] k h = absurd (ground arith)
c_string_le (x ∷ s) zero h = ground arith
c_string_le (x ∷ s) (suc k) h = ground (arith, c_string_le s k h)

pub chip_name_sizes :
    (c : Config) (name : Bytes)
    → ((chip_name c name).offset ≤ length name) × ((chip_name c name).written ≤ 31)
unfolding chip_name chip_4343
chip_name_sizes c name = ground arith

-- The local name in the event ends at or behind position 32, and 250 bytes of the buffer are
-- behind its end; a configured patch file fits into them.
pub record HasName (e : Env) (v : Evt) (w : World) : Type 0 where
  pub end : ℕ
  pub nul : get_elem? (drop hci_evt_cmd_cmpl_local v.bytes) end ≡ some 0
  pub far : local_name_buffer_len ≤ end
  pub space : end + 250 ≤ length (drop hci_evt_cmd_cmpl_local v.bytes)
  pub fits : Fits e 250 w

-- The event that a state needs: six bytes, the address, or the name.
abbrev pub IsReadable : Config → Env → HwState → Evt → World → Type 0
IsReadable c e read_local_name v w = (6 ≤ length v.bytes) × HasName e v w
IsReadable c e read_bd_addr v w = 12 ≤ length v.bytes
IsReadable c e _ v w = 6 ≤ length v.bytes

module _ (c : Config) (e : Env) where
  search_by_name_total :
      (raw : Bytes) (k : ℕ) (w : World)
      → get_elem? raw k ≡ some 0
      → k + 250 ≤ length raw
      → Fits e 250 w
      → (r : Found) × (search_by_name c e raw w ≡ some r)
  unfolding search_by_name
  search_by_name_total raw k w nul space fits =
      let chip : ChipName = chip_name c (c_string raw) in
      let (near, small) = chip_name_sizes c (c_string raw) in
      let short = c_string_le raw k nul in
      let room : ℕ = length raw - chip.offset in
      let large : 250 ≤ room = omega arith in
      let w₁ : World = record w { hw = record w.hw { local_chip_name = chip.stored } } in
      let (r, at) =
        hw_config_findpatch_total e room (suc (length chip.p_name)) chip.p_name w₁ (omega arith)
          large (ground arith) in
      (r, ground arith)

  on_read_local_name_total :
      (v : Evt) (addr : ℕ) (w : World)
      → HasName e v w
      → (r : World × Bool) × (on_read_local_name c e v addr w ≡ some r)
  unfolding on_read_local_name
  on_read_local_name_total v addr w h =
      let (raw, upper, size, nul) = upcase_name_total 0 h.end _ h.nul (omega (arith, h.far)) in
      let (f, search) = search_by_name_total raw h.end w nul (rw size h.space) h.fits in
      elim (Option-cases (on_read_local_name c e v addr w)) [
        | inl stuck ↦ absurd (ground arith)
        | inr result ↦ result
      ]

  has_null_bdaddr_total :
      (v : Evt) → 12 ≤ length v.bytes → (b : Bool) × (has_null_bdaddr v ≡ some b)
  unfolding has_null_bdaddr
  has_null_bdaddr_total v h =
      let rest : Bytes = drop hci_evt_cmd_cmpl_local v.bytes in
      elim (Option-cases (has_null_bdaddr v)) [
        | inl stuck ↦
            absurd (ground (arith, length-take 6 rest, length-drop hci_evt_cmd_cmpl_local v.bytes))
        | inr read ↦ read
      ]

  dispatch_total :
      (s : HwState) (v : Evt) (opcode addr : ℕ) (w : World)
      → IsReadable c e s v w
      → (r : World × Bool) × (dispatch c e s v opcode addr w ≡ some r)
  unfolding dispatch
  dispatch_total start v opcode addr w h = (_, refl)
  dispatch_total set_uart_clock v opcode addr w h = (_, refl)
  dispatch_total set_uart_baud_1 v opcode addr w h = (_, refl)
  dispatch_total read_local_name v opcode addr w h = on_read_local_name_total v addr w h.1
  dispatch_total dl_minidriver v opcode addr w h = (_, refl)
  dispatch_total dl_fw_patch v opcode addr w h = (_, refl)
  dispatch_total set_uart_baud_2 v opcode addr w h = (_, refl)
  dispatch_total set_bd_addr v opcode addr w h = (_, refl)
  dispatch_total read_bd_addr v opcode addr w h =
      let (b, at) = has_null_bdaddr_total v h in
      elim (Option-cases (dispatch c e read_bd_addr v opcode addr w)) [
        | inl stuck ↦ absurd (ground arith)
        | inr result ↦ result
      ]
  dispatch_total idle v opcode addr w h = (_, refl)

  IsReadable-size : (s : HwState) (v : Evt) (w : World) → IsReadable c e s v w → 6 ≤ length v.bytes
  IsReadable-size start v w h = h
  IsReadable-size set_uart_clock v w h = h
  IsReadable-size set_uart_baud_1 v w h = h
  IsReadable-size read_local_name v w h = h.0
  IsReadable-size dl_minidriver v w h = h
  IsReadable-size dl_fw_patch v w h = h
  IsReadable-size set_uart_baud_2 v w h = h
  IsReadable-size set_bd_addr v w h = h
  IsReadable-size read_bd_addr v w h = omega arith
  IsReadable-size idle v w h = h

  IsReadable-log :
      (s : HwState) (v : Evt) (k : Call) (w : World)
      → IsReadable c e s v w
      → IsReadable c e s v (log k w)
  IsReadable-log start v k w h = h
  IsReadable-log set_uart_clock v k w h = h
  IsReadable-log set_uart_baud_1 v k w h = h
  IsReadable-log dl_minidriver v k w h = h
  IsReadable-log dl_fw_patch v k w h = h
  IsReadable-log set_uart_baud_2 v k w h = h
  IsReadable-log set_bd_addr v k w h = h
  IsReadable-log read_bd_addr v k w h = h
  IsReadable-log idle v k w h = h
  IsReadable-log read_local_name v k w (size, n) =
      (size, record { end = n.end; nul = n.nul; far = n.far; space = n.space; fits = n.fits })

  with_buffer_total :
      (v : Evt) (opcode : ℕ) (w : World)
      → IsReadable c e w.hw.state v w
      → (w' : World) × (with_buffer c e v opcode w ≡ some w')
  unfolding with_buffer
  with_buffer_total v opcode w h =
      let got = call_alloc e (e.bt_hc_hdr_size + hci_cmd_max_len) w in
      elim (Option-cases (with_buffer c e v opcode w)) [
        | inr result ↦ result
        | inl stuck ↦ elim (Option-cases got.1) [
          | inl full ↦ absurd (ground arith)
          | inr (addr, here) ↦
              let (r, at) =
                dispatch_total w.hw.state v opcode addr got.0 (IsReadable-log w.hw.state v _ w h) in
              absurd (ground arith)
        ]
      ]

  -- The handler returns a state from every event that is long enough for the state it is in: six
  -- bytes; twelve where the controller's address is read; and, where the local name is read, a
  -- name that ends at position 32 or later with 250 bytes behind its end, into which a configured
  -- patch file fits.
  pub hw_config_cback_total :
      (v : Evt) (w : World)
      → IsReadable c e w.hw.state v w
      → (w' : World) × (hw_config_cback c e v w ≡ some w')
  unfolding hw_config_cback evt_opcode
  hw_config_cback_total v w h =
      let long = IsReadable-size w.hw.state v w h in
      let (status, s) = get_elem?_total v.bytes 5 (omega arith) in
      let (lo, l) = get_elem?_total v.bytes 3 (omega arith) in
      let (hi, k) = get_elem?_total v.bytes 4 (omega arith) in
      elim (Option-cases (hw_config_cback c e v w)) [
        | inr result ↦ result
        | inl stuck ↦ absurd (ground (arith, with_buffer_total v (stream_to_uint16 lo hi) w h))
      ]
