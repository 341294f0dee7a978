-- ===== src/Hardware/Handler.antt =====
-- `hw_config_start` and `hw_config_cback` of libbt/src/hardware.c. `none` is undefined behaviour.
use myir_bluetooth.Common.{
  ℕ, ◌+◌, Bool, false, ◌&&◌, Option, none, some, ◌==◌, if◌then◌else◌, Bytes, equal, take, drop,
  length, replicate, ◌>>=◌,
}
use myir_bluetooth.Config.{Config}
use myir_bluetooth.Platform.{Env, Evt, Cback, fail, dealloc, fwcfg_cb}
use myir_bluetooth.Hardware.Hci.{
  hci_reset, hci_cmd_max_len, hci_cmd_preamble_size, hci_evt_cmd_cmpl_local, bare_command,
  evt_status, evt_opcode,
}
use myir_bluetooth.Hardware.Setup.{
  set_state, close_fw, on_set_uart_baud_1, on_read_local_name, on_dl_fw_patch, on_dl_minidriver,
  on_set_uart_clock, on_start, complete, on_set_uart_baud_2, on_read_bd_addr,
}
use myir_bluetooth.World.{
  World, HwState, idle, start, set_uart_clock, set_uart_baud_1, read_local_name, dl_minidriver,
  dl_fw_patch, set_uart_baud_2, set_bd_addr, read_bd_addr, log, call_alloc, call_xmit,
}

-- `memcmp(p_tmp, null_bdaddr, 6) == 0`; `none` if the event has no six bytes there.
unfoldable pub has_null_bdaddr : Evt → Option Bool
has_null_bdaddr v =
    let a : Bytes = take 6 (drop hci_evt_cmd_cmpl_local v.bytes) in
    if length a == 6 then some (equal a (replicate 6 0)) else none

module _ (c : Config) (e : Env) where
  -- `switch (hw_cfg_cb.state)`; a state with no case leaves `is_proceeding` FALSE.
  unfoldable pub dispatch : HwState → Evt → ℕ → ℕ → World → Option (World × Bool)
  dispatch start v opcode addr w = some (on_start c e addr w)
  dispatch set_uart_clock v opcode addr w = some (on_set_uart_clock c e addr w)
  dispatch set_uart_baud_1 v opcode addr w = some (on_set_uart_baud_1 c e addr w)
  dispatch read_local_name v opcode addr w = on_read_local_name c e v addr w
  dispatch dl_minidriver v opcode addr w = some (on_dl_minidriver c e opcode addr w)
  dispatch dl_fw_patch v opcode addr w = some (on_dl_fw_patch c e opcode addr w)
  dispatch set_uart_baud_2 v opcode addr w = some (on_set_uart_baud_2 c e addr w)
  dispatch set_bd_addr v opcode addr w = some (complete c e addr w)
  dispatch read_bd_addr v opcode addr w =
      if c.use_controller_bdaddr
      then (do null ← has_null_bdaddr v; some (on_read_bd_addr c e null addr w))
      else some (w, false)
  dispatch idle v opcode addr w = some (w, false)

  unfoldable pub free_evt : Evt → World → World
  free_evt v w = if w.cbacks then log (dealloc v.addr) w else w

  -- What `if (is_proceeding == FALSE)` does.
  unfoldable pub abort : Option ℕ → World → World
  abort p_buf w =
      let w₁ : World =
        if w.cbacks
        then log (fwcfg_cb fail) (elim p_buf [ none ↦ w | some addr ↦ log (dealloc addr) w ])
        else w in
      set_state idle (close_fw w₁)

  -- Behind the `switch`.
  unfoldable pub finish : Evt → Option ℕ → World × Bool → World
  finish v p_buf r = let w : World = free_evt v r.0 in if r.1 then w else abort p_buf w

  -- The buffer for the next command, and the `switch` if there is one.
  unfoldable pub with_buffer : Evt → ℕ → World → Option World
  with_buffer v opcode w =
      let (w₁, p_buf) = call_alloc e (e.bt_hc_hdr_size + hci_cmd_max_len) w in
      elim p_buf [
        | none ↦ some (finish v none (w₁, false))
        | some addr ↦ do r ← dispatch w₁.hw.state v opcode addr w₁; some (finish v (some addr) r)
      ]

  unfoldable pub hw_config_cback : Evt → World → Option World
  hw_config_cback v w = do
    status ← evt_status v
    opcode ← evt_opcode v
    if status == 0 && w.cbacks then with_buffer v opcode w else some (finish v none (w, false))

  -- The reply of `xmit_cb` is not read.
  unfoldable pub hw_config_start : World → World
  hw_config_start w =
      let w₁ : World = record w {
        hw = record w.hw { state = idle; fw_fd = none; f_set_baud_2 = false };
      } in
      if w₁.cbacks
      then (let (w₂, p_buf) = call_alloc e (e.bt_hc_hdr_size + hci_cmd_preamble_size) w₁ in
          elim p_buf [
            | none ↦ log (fwcfg_cb fail) w₂
            | some addr ↦
                (call_xmit e hci_reset addr (bare_command hci_reset) Cback.hw_config
                  (set_state start w₂)).0
          ])
      else w₁
