-- ===== src/Hardware/Cases.antt =====
-- What each case of the handler's `switch` does with buffers, commands, reports and files.
use myir_bluetooth.Common.{
  bind_some, ℕ, Bool, true, false, none, some, ◌∷◌, Bytes, ◌≡◌, refl, arith, Option-cases, inl, inr,
  suc, drop, ◌-◌, length, leb, Bool-cases, ◌∙◌,
}
use myir_bluetooth.Config.{Config}
use myir_bluetooth.Hardware.Handler.{dispatch, has_null_bdaddr}
use myir_bluetooth.Hardware.Patch.{Found}
use myir_bluetooth.Hardware.Search.{
  Searched, configured, no_dir, hit, miss, cut, findpatch-Searched,
}
use myir_bluetooth.Hardware.Setup.{
  close_fw, send, hw_config_set_bdaddr, hw_config_read_bdaddr, set_target_baud, on_set_uart_baud_1,
  on_patch_found, or_set_bdaddr, on_read_local_name, end_download, send_record, on_dl_fw_patch,
  on_dl_minidriver, on_set_uart_clock, on_start, complete, or_complete, on_set_uart_baud_2,
  on_read_bd_addr, search_by_name, call_read,
}
use myir_bluetooth.Hardware.Naming.{ChipName, upcase_name, chip_name, c_string}
use myir_bluetooth.Ledger.{full_reads}
use myir_bluetooth.Platform.{Env, Evt, Packet}
use myir_bluetooth.Userial.Port.{userial_vendor_set_baud}
use myir_bluetooth.World.{
  World, HwState, idle, start, set_uart_clock, set_uart_baud_1, read_local_name, dl_minidriver,
  dl_fw_patch, set_uart_baud_2, set_bd_addr, read_bd_addr,
}
use myir_bluetooth.Hardware.Kept.{Quiet, Quiet-Kept, close_fw-Quiet, ms_delay-Quiet, Kept}

module _ (c : Config) (e : Env) (a : ℕ) where
  send-Kept :
      (s : HwState) (opcode addr : ℕ) (p : Packet) (w : World)
      → Kept a addr w (send c e s opcode addr p w)
  unfolding send
  send-Kept s opcode addr p w = ground arith

  set_bdaddr-Kept : (addr : ℕ) (w : World) → Kept a addr w (hw_config_set_bdaddr c e addr w)
  unfolding hw_config_set_bdaddr
  set_bdaddr-Kept addr w = send-Kept _ _ addr _ w

  read_bdaddr-Kept : (addr : ℕ) (w : World) → Kept a addr w (hw_config_read_bdaddr c e addr w)
  unfolding hw_config_read_bdaddr
  read_bdaddr-Kept addr w = send-Kept _ _ addr _ w

  set_baud-Quiet : (b : ℕ) (w : World) → Quiet a w (userial_vendor_set_baud c e b w)
  unfolding userial_vendor_set_baud
  set_baud-Quiet b w = ground arith

  complete-Kept : (addr : ℕ) (w : World) → Kept a addr w (complete c e addr w)
  unfolding complete close_fw
  complete-Kept addr w = ground arith

  or_complete-Kept :
      (addr : ℕ) (w : World) (r : World × Bool)
      → Kept a addr w r
      → Kept a addr w (or_complete c e addr r)
  unfolding or_complete
  or_complete-Kept addr w r k = ground (arith, complete-Kept addr r.0)

  or_set_bdaddr-Kept :
      (addr : ℕ) (w : World) (r : World × Bool)
      → Kept a addr w r
      → Kept a addr w (or_set_bdaddr c e addr r)
  unfolding or_set_bdaddr
  or_set_bdaddr-Kept addr w r k = ground (arith, set_bdaddr-Kept addr r.0)

  on_set_uart_baud_1-Kept : (addr : ℕ) (w : World) → Kept a addr w (on_set_uart_baud_1 c e addr w)
  unfolding on_set_uart_baud_1 set_target_baud
  on_set_uart_baud_1-Kept addr w =
      Quiet-Kept a addr w _ _ (set_baud-Quiet _ w) (send-Kept _ _ addr _ _)

  on_set_uart_clock-Kept : (addr : ℕ) (w : World) → Kept a addr w (on_set_uart_clock c e addr w)
  unfolding on_set_uart_clock
  on_set_uart_clock-Kept addr w = send-Kept _ _ addr _ w

  on_start-Kept : (addr : ℕ) (w : World) → Kept a addr w (on_start c e addr w)
  unfolding on_start
  on_start-Kept addr w = grind (arith, send-Kept, on_set_uart_clock-Kept)

  on_set_uart_baud_2-Kept : (addr : ℕ) (w : World) → Kept a addr w (on_set_uart_baud_2 c e addr w)
  unfolding on_set_uart_baud_2 set_target_baud
  on_set_uart_baud_2-Kept addr w =
      let w₁ : World = set_target_baud c e w in
      or_complete-Kept addr w _ (
        Quiet-Kept a addr w w₁ _ (set_baud-Quiet _ w)
          (ground (arith, set_bdaddr-Kept addr w₁, read_bdaddr-Kept addr w₁)))

  on_read_bd_addr-Kept :
      (null : Bool) (addr : ℕ) (w : World) → Kept a addr w (on_read_bd_addr c e null addr w)
  unfolding on_read_bd_addr
  on_read_bd_addr-Kept true addr w = or_complete-Kept addr w _ (set_bdaddr-Kept addr w)
  on_read_bd_addr-Kept false addr w = complete-Kept addr w

  end_download-Kept : (addr : ℕ) (w : World) → Kept a addr w (end_download c e addr w)
  unfolding end_download
  end_download-Kept addr w =
      let w₁ : World = userial_vendor_set_baud c e 7 w in
      let w₂ : World = record w₁ { hw = record w₁.hw { f_set_baud_2 = true } } in
      Quiet-Kept a addr w w₂ _ (ground (arith, set_baud-Quiet 7 w))
        (Quiet-Kept a addr w₂ _ _ (ms_delay-Quiet a _ w₂) (send-Kept _ _ addr _ _))

  give_up-Kept : (addr : ℕ) (w : World) → Kept a addr w (end_download c e addr (close_fw w))
  give_up-Kept addr w = Quiet-Kept a addr w _ _ (close_fw-Quiet a w) (end_download-Kept addr _)

  send_record-Kept :
      (fd : ℕ) (preamble : Bytes) (addr : ℕ) (w : World)
      → Kept a addr w (send_record c e fd preamble addr w)
  unfolding send_record call_read
  send_record-Kept fd (lo ∷ hi ∷ n ∷ rest) addr w = grind (arith, give_up-Kept)
  send_record-Kept fd _ addr w = give_up-Kept addr w

  on_dl_fw_patch-Kept :
      (opcode addr : ℕ) (w : World) → Kept a addr w (on_dl_fw_patch c e opcode addr w)
  unfolding on_dl_fw_patch call_read
  on_dl_fw_patch-Kept opcode addr w =
      grind (arith, give_up-Kept, end_download-Kept, send_record-Kept)

  on_dl_minidriver-Kept :
      (opcode addr : ℕ) (w : World) → Kept a addr w (on_dl_minidriver c e opcode addr w)
  unfolding on_dl_minidriver
  on_dl_minidriver-Kept opcode addr w =
      Quiet-Kept a addr w _ _ (ground (arith, ms_delay-Quiet a 50 w))
        (on_dl_fw_patch-Kept opcode addr _)

-- A search reports, opens and reads nothing, and leaves descriptor and state alone.
abbrev pub Searching : ℕ → World → World → Type 0
Searching a w w' =
    Quiet a w w'
    × (w'.hw.fw_fd ≡ w.hw.fw_fd)
    × (w'.hw.state ≡ w.hw.state)
    × (full_reads w'.trace ≡ full_reads w.trace)

Searching-trans : (a : ℕ) (u v w : World) → Searching a u v → Searching a v w → Searching a u w
Searching-trans a u v w p q = ground arith

Searched-Searching :
    (a : ℕ) {e : Env} {room : ℕ} {r : Found} {chip : Bytes} {w : World}
    → Searched e room r chip w
    → Searching a w r.world
Searched-Searching a (configured chip w named fits end) = ground arith
Searched-Searching a (no_dir chip w unnamed closed end) = ground arith
Searched-Searching a (hit chip w names name unnamed dir at short size fits end) = ground arith
Searched-Searching a (miss chip w names unnamed dir fruitless whole end) = ground arith
Searched-Searching a {r = r} (cut chip shorter w names unnamed dir fruitless at later) =
    Searching-trans a w _ r.world (ground arith) (Searched-Searching a later)

Kept-some :
    (a addr : ℕ) (w : World) (x r : World × Bool)
    → some x ≡ some r
    → Kept a addr w x
    → Kept a addr w r
Kept-some a addr w x r h k = ground arith

module _ (c : Config) (e : Env) (a : ℕ) where
  -- The descriptor of an open patch file would be overwritten here.
  on_patch_found-Kept :
      (addr : ℕ) (r : Found)
      → r.world.hw.fw_fd ≡ none
      → Kept a addr r.world (on_patch_found c e addr r)
  unfolding on_patch_found send
  on_patch_found-Kept addr r closed = ground arith

  pub search_by_name-Searching :
      (raw : Bytes) (w : World) {r : Found}
      → search_by_name c e raw w ≡ some r
      → Searching a w r.world
  unfolding search_by_name
  search_by_name-Searching raw w {r} h =
      let chip : ChipName = chip_name c (c_string raw) in
      let room : ℕ = length raw - chip.offset in
      let w₁ : World = record w { hw = record w.hw { local_chip_name = chip.stored } } in
      elim (Bool-cases (leb chip.written room)) [
        | inl fits ↦ Searching-trans a w w₁ r.world (ground arith) (
            Searched-Searching a
              (findpatch-Searched e room (suc (length chip.p_name)) chip.p_name w₁ (rw fits at h)))
        | inr over ↦ absurd (ground arith)
      ]

  on_read_local_name-Kept :
      (v : Evt) (addr : ℕ) (w : World) {r : World × Bool}
      → w.hw.fw_fd ≡ none
      → on_read_local_name c e v addr w ≡ some r
      → Kept a addr w r
  unfolding on_read_local_name
  on_read_local_name-Kept v addr w {r} closed h =
      let (raw, up, h₁) = bind_some (upcase_name 0 (drop 6 v.bytes)) _ h in
      let (s, search, h₂) = bind_some (search_by_name c e raw w) _ h₁ in
      let (quiet, same, _, _) = search_by_name-Searching raw w search in
      let k : Kept a addr w (or_set_bdaddr c e addr (on_patch_found c e addr s)) =
        or_set_bdaddr-Kept c e a addr w _
          (Quiet-Kept a addr w s.world _ quiet (on_patch_found-Kept addr s (same ∙ closed))) in
      Kept-some a addr w _ r h₂ k

  -- Every case of the `switch`, where no descriptor is held when the local name arrives.
  pub dispatch-Kept :
      (s : HwState) (v : Evt) (opcode addr : ℕ) (w : World) {r : World × Bool}
      → (s ≡ read_local_name → w.hw.fw_fd ≡ none)
      → dispatch c e s v opcode addr w ≡ some r
      → Kept a addr w r
  unfolding dispatch
  dispatch-Kept start v opcode addr w {r} shut h =
      Kept-some a addr w _ r h (on_start-Kept c e a addr w)
  dispatch-Kept set_uart_clock v opcode addr w {r} shut h =
      Kept-some a addr w _ r h (on_set_uart_clock-Kept c e a addr w)
  dispatch-Kept set_uart_baud_1 v opcode addr w {r} shut h =
      Kept-some a addr w _ r h (on_set_uart_baud_1-Kept c e a addr w)
  dispatch-Kept read_local_name v opcode addr w {r} shut h =
      on_read_local_name-Kept v addr w (shut refl) h
  dispatch-Kept dl_minidriver v opcode addr w {r} shut h =
      Kept-some a addr w _ r h (on_dl_minidriver-Kept c e a opcode addr w)
  dispatch-Kept dl_fw_patch v opcode addr w {r} shut h =
      Kept-some a addr w _ r h (on_dl_fw_patch-Kept c e a opcode addr w)
  dispatch-Kept set_uart_baud_2 v opcode addr w {r} shut h =
      Kept-some a addr w _ r h (on_set_uart_baud_2-Kept c e a addr w)
  dispatch-Kept set_bd_addr v opcode addr w {r} shut h =
      Kept-some a addr w _ r h (complete-Kept c e a addr w)
  dispatch-Kept read_bd_addr v opcode addr w {r} shut h = elim (Option-cases (has_null_bdaddr v)) [
    | inl short ↦ ground arith
    | inr (null, at) ↦ ground (arith, on_read_bd_addr-Kept c e a null addr w)
  ]
  dispatch-Kept idle v opcode addr w {r} shut h = ground arith
