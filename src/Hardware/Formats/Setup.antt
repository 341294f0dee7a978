-- ===== src/Hardware/Formats/Setup.antt =====
-- The layout of the commands of a configuration.
use myir_bluetooth.Common.{
  ℕ, suc, ◌-◌, Bool, true, false, some, none, [], ◌∷◌, ◌≡◌, arith, Bytes, length, drop, Bool-cases,
  inl, inr, bind_some, leb, Option,
}
use myir_bluetooth.Config.{Config}
use myir_bluetooth.Hardware.Formats.Download.{Plain, patch-Formed, minidriver-Formed}
use myir_bluetooth.Hardware.Formats.{misfit, packet_fits, bd_addr_fits, baudrate_fits, Formed}
use myir_bluetooth.Hardware.Handler.{
  dispatch, hw_config_cback, finish, free_evt, abort, has_null_bdaddr, hw_config_start,
}
use myir_bluetooth.Hardware.Hci.{bare_command, hci_evt_cmd_cmpl_local}
use myir_bluetooth.Hardware.Naming.{ChipName, chip_name, c_string, upcase_name}
use myir_bluetooth.Hardware.Outcome.{
  refused, no_buffer, switched, after_alloc, hw_config_cback-Ended,
}
use myir_bluetooth.Hardware.Patch.{Found}
use myir_bluetooth.Hardware.Search.{
  Searched, configured, no_dir, hit, miss, cut, findpatch-Searched,
}
use myir_bluetooth.Hardware.Setup.{
  send, set_target_baud, hw_config_set_bdaddr, hw_config_read_bdaddr, on_set_uart_baud_1,
  on_patch_found, or_set_bdaddr, search_by_name, on_read_local_name, on_set_uart_clock, on_start,
  complete, or_complete, on_set_uart_baud_2, on_read_bd_addr, close_fw,
}
use myir_bluetooth.Platform.{Env, Evt, list_dir}
use myir_bluetooth.Userial.Port.{userial_vendor_set_baud}
use myir_bluetooth.World.{
  World, HwState, idle, start, set_uart_clock, set_uart_baud_1, read_local_name, dl_minidriver,
  dl_fw_patch, set_uart_baud_2, set_bd_addr, read_bd_addr, log,
}

Plain-trans : (u v w : World) → Plain u v → Plain v w → Plain u w
Plain-trans u v w p q = omega (arith, p, q)

Searched-Plain :
    {e : Env} {room : ℕ} {r : Found} {chip : Bytes} {w : World}
    → Searched e room r chip w
    → Plain w r.world
Searched-Plain (configured chip w named fits end) = ground arith
Searched-Plain (no_dir chip w unnamed closed end) = ground arith
Searched-Plain (hit chip w names name unnamed dir at short size fits end) = ground arith
Searched-Plain (miss chip w names unnamed dir fruitless whole end) = ground arith
Searched-Plain {r = r} (cut chip shorter w names unnamed dir fruitless at later) =
    Plain-trans w (log (list_dir w.hw.fw_patchfile_path (some names)) w) r.world (ground arith)
      (Searched-Plain later)

module _ (c : Config) (e : Env) where
  target_baud-Plain : (w : World) → Plain w (set_target_baud c e w)
  unfolding set_target_baud userial_vendor_set_baud
  target_baud-Plain w = ground arith

  search-Plain :
      (raw : Bytes) (w : World) {r : Found} → search_by_name c e raw w ≡ some r → Plain w r.world
  unfolding search_by_name
  search-Plain raw w {r} h =
      let chip : ChipName = chip_name c (c_string raw) in
      let room : ℕ = length raw - chip.offset in
      let w₁ : World = record w { hw = record w.hw { local_chip_name = chip.stored } } in
      elim (Bool-cases (leb chip.written room)) [
        | inl fits ↦ Plain-trans w w₁ r.world (ground arith) (
            Searched-Plain
              (findpatch-Searched e room (suc (length chip.p_name)) chip.p_name w₁ (rw fits at h)))
        | inr over ↦ absurd (ground arith)
      ]

  bare-Formed :
      (s : HwState) (opcode addr : ℕ) (w : World)
      → misfit opcode (bare_command opcode) ≡ 0
      → Formed w (send c e s opcode addr (bare_command opcode) w).0
  unfolding send
  bare-Formed s opcode addr w h = ground arith

  set_bdaddr-Formed : (addr : ℕ) (w : World) → Formed w (hw_config_set_bdaddr c e addr w).0
  unfolding hw_config_set_bdaddr send
  set_bdaddr-Formed addr w = ground (arith, bd_addr_fits w.bd_addr)

  read_bdaddr-Formed : (addr : ℕ) (w : World) → Formed w (hw_config_read_bdaddr c e addr w).0
  unfolding hw_config_read_bdaddr send
  read_bdaddr-Formed addr w = ground (arith, packet_fits 0x1009 [] (omega arith))

  baud_1-Formed : (addr : ℕ) (w : World) → Formed w (on_set_uart_baud_1 c e addr w).0
  unfolding on_set_uart_baud_1 send
  baud_1-Formed addr w = ground (arith, target_baud-Plain w, packet_fits 0x0C14 [] (omega arith))

  clock-Formed : (addr : ℕ) (w : World) → Formed w (on_set_uart_clock c e addr w).0
  unfolding on_set_uart_clock send
  clock-Formed addr w = ground (arith, baudrate_fits c.uart_target_baud_rate)

  start-Formed : (addr : ℕ) (w : World) → Formed w (on_start c e addr w).0
  unfolding on_start send
  start-Formed addr w =
      ground (arith, clock-Formed addr w, packet_fits 0xFC45 (1 ∷ []) (omega arith))

  patch_found-Formed : (addr : ℕ) (r : Found) → Formed r.world (on_patch_found c e addr r).0
  unfolding on_patch_found send
  patch_found-Formed addr r = ground (arith, packet_fits 0xFC2E [] (omega arith))

  or_set_bdaddr-Formed : (addr : ℕ) (r : World × Bool) → Formed r.0 (or_set_bdaddr c e addr r).0
  unfolding or_set_bdaddr
  or_set_bdaddr-Formed addr r = ground (arith, set_bdaddr-Formed addr r.0)

  name-Formed :
      (v : Evt) (addr : ℕ) (w : World) {r : World × Bool}
      → on_read_local_name c e v addr w ≡ some r
      → Formed w r.0
  unfolding on_read_local_name
  name-Formed v addr w {r} h =
      let (raw, _, h₁) = bind_some (upcase_name 0 (drop hci_evt_cmd_cmpl_local v.bytes)) _ h in
      let (f, found, h₂) = bind_some (search_by_name c e raw w) _ h₁ in
      let x : World × Bool = on_patch_found c e addr f in
      ground
        (arith, search-Plain raw w found, patch_found-Formed addr f, or_set_bdaddr-Formed addr x)

  complete-Formed : (addr : ℕ) (w : World) → Formed w (complete c e addr w).0
  unfolding complete close_fw
  complete-Formed addr w = ground arith

  or_complete-Formed : (addr : ℕ) (r : World × Bool) → Formed r.0 (or_complete c e addr r).0
  unfolding or_complete
  or_complete-Formed addr r = ground (arith, complete-Formed addr r.0)

  baud_2-Formed : (addr : ℕ) (w : World) → Formed w (on_set_uart_baud_2 c e addr w).0
  unfolding on_set_uart_baud_2
  baud_2-Formed addr w =
      let w₁ : World = set_target_baud c e w in
      let plain = target_baud-Plain w in
      let own = hw_config_read_bdaddr c e addr w₁ in
      let given = hw_config_set_bdaddr c e addr w₁ in
      ground (
        arith,
        plain,
        read_bdaddr-Formed addr w₁,
        set_bdaddr-Formed addr w₁,
        or_complete-Formed addr own,
        or_complete-Formed addr given,
      )

  bd_addr-Formed :
      (null : Bool) (addr : ℕ) (w : World) → Formed w (on_read_bd_addr c e null addr w).0
  unfolding on_read_bd_addr
  bd_addr-Formed true addr w =
      omega
        (arith, set_bdaddr-Formed addr w, or_complete-Formed addr (hw_config_set_bdaddr c e addr w))
  bd_addr-Formed false addr w = complete-Formed addr w

  dispatch-Formed :
      (s : HwState) (v : Evt) (opcode addr : ℕ) (w : World) {r : World × Bool}
      → dispatch c e s v opcode addr w ≡ some r
      → Formed w r.0
  unfolding dispatch
  dispatch-Formed start v opcode addr w h = ground (arith, start-Formed addr w)
  dispatch-Formed set_uart_clock v opcode addr w h = ground (arith, clock-Formed addr w)
  dispatch-Formed set_uart_baud_1 v opcode addr w h = ground (arith, baud_1-Formed addr w)
  dispatch-Formed read_local_name v opcode addr w h = name-Formed v addr w h
  dispatch-Formed dl_minidriver v opcode addr w h =
      ground (arith, minidriver-Formed c e opcode addr w)
  dispatch-Formed dl_fw_patch v opcode addr w h = ground (arith, patch-Formed c e opcode addr w)
  dispatch-Formed set_uart_baud_2 v opcode addr w h = ground (arith, baud_2-Formed addr w)
  dispatch-Formed set_bd_addr v opcode addr w h = ground (arith, complete-Formed addr w)
  dispatch-Formed read_bd_addr v opcode addr w h = elim (Bool-cases c.use_controller_bdaddr) [
    | inl own ↦
        let (null, _, h₁) = bind_some (has_null_bdaddr v) _ (rw own at h) in
        ground (arith, bd_addr-Formed null addr w)
    | inr given ↦ ground arith
  ]
  dispatch-Formed idle v opcode addr w h = ground arith

  finish-Formed : (v : Evt) (p : Option ℕ) (r : World × Bool) → Formed r.0 (finish c e v p r)
  unfolding finish free_evt abort close_fw
  finish-Formed v p r = ground arith

  pub hw_config_cback-Formed :
      (v : Evt) (w : World) {w' : World} → hw_config_cback c e v w ≡ some w' → Formed w w'
  hw_config_cback-Formed v w h = elim (hw_config_cback-Ended c e v w h) [
    | refused end ↦ rw end (finish-Formed v none (w, false))
    | no_buffer on full end ↦
        rw end (omega (arith, finish-Formed v none ((after_alloc c e w).0, false)))
    | switched addr opcode r on got case end ↦
        let d = dispatch-Formed w.hw.state v opcode addr (after_alloc c e w).0 case in
        rw end (omega (arith, d, finish-Formed v (some addr) r))
  ]

  pub hw_config_start-Formed : (w : World) → Formed w (hw_config_start c e w)
  unfolding hw_config_start
  hw_config_start-Formed w = ground (arith, packet_fits 0x0C03 [] (omega arith))
