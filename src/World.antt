-- ===== src/World.antt =====
-- The static variables of the five source files, and the calls made so far.
use myir_bluetooth.Common.{ℕ, Bool, false, Option, none, some, [], ◌∷◌, Bytes}
use myir_bluetooth.Config.{Config, ScoParam, I2sParam}
use myir_bluetooth.Platform.{Call, alloc, xmit, open_file, Trace, Packet, Cback, Env}

-- `vnd_userial`.
pub record Userial : Type 0 where
  pub fd : Option ℕ
  pub termios : ℕ
  pub port_name : Bytes

-- upio.h: the signals and the actions on them.
pub data Pio : Type 0 where
  bt_wake host_wake lpm_mode : Pio

pub data Action : Type 0 where
  unknown deassert assert : Action

-- `upio_state` (its entry for HOST_WAKE is never written), `rfkill_id` (`none` is -1), the other
-- statics of upio.c, and `lpm_proc_cb`.
pub record Upio : Type 0 where
  pub wake_state : Action
  pub mode_state : Action
  pub rfkill_id : Option ℕ
  pub rfkill_state_path : Bytes
  pub bt_emul_enable : ℕ
  pub btwrite_active : Bool
  pub timer_created : Bool
  pub timer_id : ℕ

-- `hw_cfg_cb.state`; `idle` is 0.
pub data HwState : Type 0 where
  idle start set_uart_clock set_uart_baud_1 read_local_name dl_minidriver : HwState
  dl_fw_patch set_uart_baud_2 set_bd_addr read_bd_addr : HwState

-- `hw_cfg_cb` and the statics on the patch file. `settlement_delay` is `none` if negative.
pub record Hw : Type 0 where
  pub state : HwState
  pub fw_fd : Option ℕ
  pub f_set_baud_2 : Bool
  pub local_chip_name : Bytes
  pub fw_patchfile_path : Bytes
  pub fw_patchfile_name : Bytes
  pub settlement_delay : Option ℕ

-- The SCO statics of hardware.c; `bus_i2s` says that `sco_bus_interface` is SCO_INTERFACE_I2S.
pub record Sco : Type 0 where
  pub bus_i2s : Bool
  pub sco_param : ScoParam
  pub i2spcm_param : I2sParam
  pub clock_rate : ℕ
  pub wbs_clock_rate : ℕ

-- `vnd_local_bd_addr`.
pub record BdAddr : Type 0 where
  pub b0 : ℕ
  pub b1 : ℕ
  pub b2 : ℕ
  pub b3 : ℕ
  pub b4 : ℕ
  pub b5 : ℕ

-- `cbacks` says that `bt_vendor_cbacks` is not NULL.
pub record World : Type 0 where
  pub cbacks : Bool
  pub bd_addr : BdAddr
  pub serial : Userial
  pub upio : Upio
  pub hw : Hw
  pub sco : Sco
  pub trace : Trace

-- The values that the static variables start with.
abbrev pub initial : Config → World
initial c = record {
  cbacks = false;
  bd_addr = record { b0 = 0; b1 = 0; b2 = 0; b3 = 0; b4 = 0; b5 = 0 };
  serial = record { fd = some 0; termios = 0; port_name = [] };
  upio = record {
    wake_state = Action.unknown;
    mode_state = Action.unknown;
    rfkill_id = none;
    rfkill_state_path = [];
    bt_emul_enable = 0;
    btwrite_active = false;
    timer_created = false;
    timer_id = 0;
  };
  hw = record {
    state = idle;
    fw_fd = some 0;
    f_set_baud_2 = false;
    local_chip_name = [];
    fw_patchfile_path = c.fw_patchfile_location;
    fw_patchfile_name = [];
    settlement_delay = none;
  };
  sco = record {
    bus_i2s = c.sco_use_i2s_interface;
    sco_param = c.sco_pcm;
    i2spcm_param = c.sco_i2spcm;
    clock_rate = 0xff;
    wbs_clock_rate = 0xff;
  };
  trace = [];
}

abbrev pub log : Call → World → World
log k w = record w { trace = k ∷ w.trace }

-- Calls whose answer the code reads.
abbrev pub call_alloc : Env → ℕ → World → World × Option ℕ
call_alloc e size w = let r = e.alloc_answer w.trace size in (log (alloc size r) w, r)

abbrev pub call_xmit : Env → ℕ → ℕ → Packet → Cback → World → World × Bool
call_xmit e op addr p k w = let r = e.xmit_answer w.trace op p in (log (xmit op addr p k r) w, r)

abbrev pub call_open : Env → Bytes → World → World × Option ℕ
call_open e path w = let r = e.open_answer w.trace path in (log (open_file path r) w, r)
