-- ===== src/Hardware/Transitions.antt =====
-- The state machine of the configuration: its transitions, its invariant, and why it ends.
use myir_bluetooth.Common.{
  bind_some, ℕ, suc, ◌≤◌, Bool, true, false, none, some, [], ◌∷◌, Bytes, ◌≡◌, ◌⊎◌, refl, arith,
  Option-cases, inl, inr, length, drop, ◌∙◌,
}
use myir_bluetooth.Config.{Config}
use myir_bluetooth.Hardware.Cases.{Searching, search_by_name-Searching}
use myir_bluetooth.Hardware.Handler.{dispatch, has_null_bdaddr}
use myir_bluetooth.Hardware.Hci.{ms_delay}
use myir_bluetooth.Hardware.Patch.{Found}
use myir_bluetooth.Hardware.Setup.{
  close_fw, set_state, send, hw_config_set_bdaddr, hw_config_read_bdaddr, set_target_baud,
  on_set_uart_baud_1, on_patch_found, or_set_bdaddr, search_by_name, on_read_local_name,
  end_download, call_read, send_record, on_dl_fw_patch, on_dl_minidriver, on_set_uart_clock,
  on_start, complete, or_complete, on_set_uart_baud_2, on_read_bd_addr,
}
use myir_bluetooth.Hardware.Naming.{upcase_name}
use myir_bluetooth.Ledger.{full_reads}
use myir_bluetooth.Platform.{Env, Evt, Trace, read_file}
use myir_bluetooth.Userial.Port.{userial_vendor_set_baud}
use myir_bluetooth.World.{
  World, HwState, log, idle, start, set_uart_clock, set_uart_baud_1, read_local_name, dl_minidriver,
  dl_fw_patch, set_uart_baud_2, set_bd_addr, read_bd_addr,
}
use myir_bluetooth.Hardware.Machine.{edge, may_hold, IsReady, left, Moved}

module _ (c : Config) (e : Env) (addr : ℕ) (w : World) where
  on_start-Moved : w.hw.state ≡ start → IsReady w → Moved w (on_start c e addr w)
  unfolding on_start on_set_uart_clock send
  on_start-Moved s h = ground arith

  on_set_uart_clock-Moved :
      w.hw.state ≡ set_uart_clock → IsReady w → Moved w (on_set_uart_clock c e addr w)
  unfolding on_set_uart_clock send
  on_set_uart_clock-Moved s h = ground arith

  on_set_uart_baud_1-Moved :
      w.hw.state ≡ set_uart_baud_1 → IsReady w → Moved w (on_set_uart_baud_1 c e addr w)
  unfolding on_set_uart_baud_1 send set_target_baud userial_vendor_set_baud
  on_set_uart_baud_1-Moved s h = ground arith

  on_set_uart_baud_2-Moved :
      w.hw.state ≡ set_uart_baud_2 → IsReady w → Moved w (on_set_uart_baud_2 c e addr w)
  unfolding on_set_uart_baud_2 send set_target_baud userial_vendor_set_baud or_complete complete
      close_fw hw_config_set_bdaddr hw_config_read_bdaddr
  on_set_uart_baud_2-Moved s h = ground arith

  complete-Moved :
      (w.hw.state ≡ set_bd_addr) ⊎ (w.hw.state ≡ read_bd_addr) → Moved w (complete c e addr w)
  unfolding complete close_fw
  complete-Moved s = ground arith

  on_read_bd_addr-Moved :
      (null : Bool)
      → w.hw.state ≡ read_bd_addr
      → IsReady w
      → Moved w (on_read_bd_addr c e null addr w)
  unfolding on_read_bd_addr or_complete complete close_fw hw_config_set_bdaddr send
  on_read_bd_addr-Moved null s h = ground arith

-- The end of a download: back to `start`, for the second time.
record Restarted (w : World) (r : World × Bool) : Type 0 where
  state : r.0.hw.state ≡ start
  second : r.0.hw.f_set_baud_2 ≡ true
  file : r.0.hw.fw_fd ≡ w.hw.fw_fd
  reads : full_reads r.0.trace ≡ full_reads w.trace

close_fw_lem :
    (w : World)
    → ((close_fw w).hw.fw_fd ≡ none) × (full_reads (close_fw w).trace ≡ full_reads w.trace)
unfolding close_fw
close_fw_lem w = ground arith

full_reads-read :
    (fd n : ℕ) (p : Bytes) (t : Trace)
    → (3 ≤ length p → full_reads (read_file fd n (some p) ∷ t) ≡ suc (full_reads t))
      × (full_reads t ≤ full_reads (read_file fd n (some p) ∷ t))
full_reads-read fd n [] t = ground arith
full_reads-read fd n (x ∷ []) t = ground arith
full_reads-read fd n (x ∷ y ∷ []) t = ground arith
full_reads-read fd n (x ∷ y ∷ z ∷ p) t = ground arith

module _ (c : Config) (e : Env) (addr : ℕ) where
  end_download-Restarted : (w : World) → Restarted w (end_download c e addr w)
  unfolding end_download send userial_vendor_set_baud ms_delay
  end_download-Restarted w = ground arith

  -- The file closed, and the download ended.
  give_up-Restarted : (w : World) → Restarted (close_fw w) (end_download c e addr (close_fw w))
  give_up-Restarted w = end_download-Restarted (close_fw w)

  -- Where the download goes on, or is over, from a world in `dl_fw_patch`.
  record Downloading (w : World) (r : World × Bool) : Type 0 where
    ready : may_hold r.0.hw.state ≡ false → r.0.hw.fw_fd ≡ none
    along : edge dl_fw_patch r.0.hw.state ≡ true
    bounded : left r.0 ≤ 7
    reads : full_reads w.trace ≤ full_reads r.0.trace

  give_up-Downloading : (w : World) → Downloading w (end_download c e addr (close_fw w))
  give_up-Downloading w = ground (arith, give_up-Restarted w, close_fw_lem w)

  give_up-left : (w : World) → left (end_download c e addr (close_fw w)).0 ≡ 6
  give_up-left w = ground (arith, give_up-Restarted w)

  send_record-Downloading :
      (fd : ℕ) (preamble : Bytes) (w : World)
      → w.hw.state ≡ dl_fw_patch
      → Downloading w (send_record c e fd preamble addr w)
        × ((left (send_record c e fd preamble addr w).0 ≡ 6) ⊎ (3 ≤ length preamble))
  unfolding send_record call_read
  send_record-Downloading fd (lo ∷ hi ∷ n ∷ rest) w s =
      elim (Option-cases (e.read_answer w.trace fd n)) [
        | inl failed ↦
            (ground (arith, give_up-Downloading (log (read_file fd n none) w)), inr (omega arith))
        | inr (p, got) ↦ (ground (arith, full_reads-read fd n p w.trace), inr (omega arith))
      ]
  send_record-Downloading fd [] w s = (give_up-Downloading w, inl (give_up-left w))
  send_record-Downloading fd (lo ∷ []) w s = (give_up-Downloading w, inl (give_up-left w))
  send_record-Downloading fd (lo ∷ hi ∷ []) w s = (give_up-Downloading w, inl (give_up-left w))

  on_dl_fw_patch-Moved :
      (opcode : ℕ) (w : World)
      → w.hw.state ≡ dl_fw_patch
      → Moved w (on_dl_fw_patch c e opcode addr w)
  unfolding on_dl_fw_patch call_read
  on_dl_fw_patch-Moved opcode w s = elim (Option-cases w.hw.fw_fd) [
    | inl closed ↦ ground (arith, end_download-Restarted w)
    | inr (fd, held) ↦ elim (Option-cases (e.read_answer w.trace fd 3)) [
      | inl failed ↦
          let w₁ : World = log (read_file fd 3 none) w in
          ground (arith, give_up-Downloading w₁, give_up-left w₁)
      | inr (p, got) ↦
          let w₁ : World = log (read_file fd 3 (some p)) w in
          ground (
            arith,
            give_up-Downloading w₁,
            give_up-left w₁,
            send_record-Downloading fd p w₁ s,
            full_reads-read fd 3 p w.trace,
          )
    ]
  ]

  on_dl_minidriver-Moved :
      (opcode : ℕ) (w : World)
      → w.hw.state ≡ dl_minidriver
      → Moved w (on_dl_minidriver c e opcode addr w)
  unfolding on_dl_minidriver ms_delay
  on_dl_minidriver-Moved opcode w s =
      ground (arith, on_dl_fw_patch-Moved opcode (set_state dl_fw_patch (ms_delay 50 w)) refl)

  on_patch_found-Moved :
      (r : Found)
      → r.world.hw.state ≡ read_local_name
      → r.world.hw.fw_fd ≡ none
      → Moved r.world (or_set_bdaddr c e addr (on_patch_found c e addr r))
  unfolding on_patch_found send or_set_bdaddr hw_config_set_bdaddr
  on_patch_found-Moved r s h = ground arith

  on_read_local_name-Moved :
      (v : Evt) (w : World) {r : World × Bool}
      → w.hw.state ≡ read_local_name
      → IsReady w
      → on_read_local_name c e v addr w ≡ some r
      → Moved w r
  unfolding on_read_local_name
  on_read_local_name-Moved v w {r} s h eq =
      let (raw, _, eq₁) = bind_some (upcase_name 0 (drop 6 v.bytes)) _ eq in
      let (f, search, eq₂) = bind_some (search_by_name c e raw w) _ eq₁ in
      let kept : Searching 0 w f.world = search_by_name-Searching c e 0 raw w search in
      let shut : (f.world.hw.fw_fd ≡ none) = ground arith in
      ground (arith, on_patch_found-Moved f (kept.2 ∙ s) shut)

-- Every case of the `switch` keeps the invariant, follows a transition and lowers what is left.
pub dispatch-Moved :
    (c : Config) (e : Env) (s : HwState) (v : Evt) (opcode addr : ℕ) (w : World) {r : World × Bool}
    → w.hw.state ≡ s
    → IsReady w
    → dispatch c e s v opcode addr w ≡ some r
    → Moved w r
unfolding dispatch
dispatch-Moved c e start v opcode addr w at h eq = ground (arith, on_start-Moved c e addr w at h)
dispatch-Moved c e set_uart_clock v opcode addr w at h eq =
    ground (arith, on_set_uart_clock-Moved c e addr w at h)
dispatch-Moved c e set_uart_baud_1 v opcode addr w at h eq =
    ground (arith, on_set_uart_baud_1-Moved c e addr w at h)
dispatch-Moved c e read_local_name v opcode addr w at h eq =
    on_read_local_name-Moved c e addr v w at h eq
dispatch-Moved c e dl_minidriver v opcode addr w at h eq =
    ground (arith, on_dl_minidriver-Moved c e addr opcode w at)
dispatch-Moved c e dl_fw_patch v opcode addr w at h eq =
    ground (arith, on_dl_fw_patch-Moved c e addr opcode w at)
dispatch-Moved c e set_uart_baud_2 v opcode addr w at h eq =
    ground (arith, on_set_uart_baud_2-Moved c e addr w at h)
dispatch-Moved c e set_bd_addr v opcode addr w at h eq =
    ground (arith, complete-Moved c e addr w (inl at))
dispatch-Moved c e read_bd_addr v opcode addr w at h eq = elim (Option-cases (has_null_bdaddr v)) [
  | inl short ↦ ground arith
  | inr (null, is) ↦ ground (arith, on_read_bd_addr-Moved c e addr w null at h)
]
dispatch-Moved c e idle v opcode addr w at h eq = ground arith
