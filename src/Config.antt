-- ===== src/Config.antt =====
-- The build-time configuration: the macros of libbt/include/bt_vendor_nordic.h that the code
-- tests, with their defaults, and the values of libbt/include/vnd_nordic.txt, from which the
-- build generates vnd_buildcfg.h. The theorems hold for every configuration.
use myir_bluetooth.Common.{ℕ, Bool, true, false, ◌∷◌, [], Bytes, codes}

-- `bt_lpm_param_t`, in the order of its bytes.
pub record LpmParam : Type 0 where
  pub sleep_mode : ℕ
  pub host_stack_idle_threshold : ℕ
  pub host_controller_idle_threshold : ℕ
  pub bt_wake_polarity : ℕ
  pub host_wake_polarity : ℕ
  pub allow_host_sleep_during_sco : ℕ
  pub combine_sleep_mode_and_lpm : ℕ
  pub enable_uart_txd_tri_state : ℕ
  pub sleep_guard_time : ℕ
  pub wakeup_guard_time : ℕ
  pub txd_config : ℕ
  pub pulsed_host_wake : ℕ

-- The five bytes of `bt_sco_param`.
pub record ScoParam : Type 0 where
  pub routing : ℕ
  pub clock_rate : ℕ
  pub frame_type : ℕ
  pub sync_mode : ℕ
  pub clock_mode : ℕ

-- The five bytes of `bt_pcm_data_fmt_param`.
pub record PcmFormat : Type 0 where
  pub shift_mode : ℕ
  pub fill_bits : ℕ
  pub fill_method : ℕ
  pub fill_num : ℕ
  pub justify_mode : ℕ

-- The four bytes of `bt_sco_i2spcm_param`.
pub record I2sParam : Type 0 where
  pub mode : ℕ
  pub role : ℕ
  pub sample_rate : ℕ
  pub clock_rate : ℕ

-- What `memcpy` takes from each of these.
abbrev pub lpm_bytes : LpmParam → Bytes
lpm_bytes p =
    p.sleep_mode ∷ p.host_stack_idle_threshold ∷ p.host_controller_idle_threshold
    ∷ p.bt_wake_polarity ∷ p.host_wake_polarity ∷ p.allow_host_sleep_during_sco
    ∷ p.combine_sleep_mode_and_lpm ∷ p.enable_uart_txd_tri_state ∷ p.sleep_guard_time
    ∷ p.wakeup_guard_time ∷ p.txd_config ∷ p.pulsed_host_wake ∷ []

abbrev pub sco_bytes : ScoParam → Bytes
sco_bytes p = p.routing ∷ p.clock_rate ∷ p.frame_type ∷ p.sync_mode ∷ p.clock_mode ∷ []

abbrev pub pcm_bytes : PcmFormat → Bytes
pcm_bytes p = p.shift_mode ∷ p.fill_bits ∷ p.fill_method ∷ p.fill_num ∷ p.justify_mode ∷ []

abbrev pub i2s_bytes : I2sParam → Bytes
i2s_bytes p = p.mode ∷ p.role ∷ p.sample_rate ∷ p.clock_rate ∷ []

pub record Config : Type 0 where
  pub runtime_tuning_enabled : Bool
  pub conf_file : Bytes
  pub uart_device_port : Bytes
  pub fw_patchfile_location : Bytes
  pub uart_target_baud_rate : ℕ
  pub fw_patch_settlement_delay_ms : ℕ
  pub use_controller_bdaddr : Bool
  pub use_bluetooth_bcm4343 : Bool
  pub lpm : LpmParam
  pub lpm_idle_timeout_multiple : ℕ
  pub bt_wake_via_userial_ioctl : Bool
  pub bt_wake_userial_ldisc : Bool
  pub bt_wake_via_proc : Bool
  pub bt_wake_via_proc_notify_deassert : Bool
  pub proc_btwrite_timer_timeout_ms : ℕ
  pub n_brcm_hci : ℕ
  pub sco_cfg_included : Bool
  pub sco_use_i2s_interface : Bool
  pub sco_wbs_sample_rate : ℕ
  pub sco_i2spcm : I2sParam
  pub sco_i2spcm_if_clock_rate4wbs : ℕ
  pub sco_pcm : ScoParam
  pub pcm_data_fmt : PcmFormat
  pub hw_end_with_hci_reset : Bool

-- `lpm_param`: the LPM macros, and 0 where the table says "not applicable".
abbrev pub default_lpm : LpmParam
default_lpm = record {
  sleep_mode = 1;
  host_stack_idle_threshold = 1;
  host_controller_idle_threshold = 1;
  bt_wake_polarity = 1;
  host_wake_polarity = 1;
  allow_host_sleep_during_sco = 1;
  combine_sleep_mode_and_lpm = 1;
  enable_uart_txd_tri_state = 0;
  sleep_guard_time = 0;
  wakeup_guard_time = 0;
  txd_config = 0;
  pulsed_host_wake = 0;
}

abbrev pub default_i2spcm : I2sParam
default_i2spcm = record { mode = 1; role = 1; sample_rate = 0; clock_rate = 1 }

abbrev pub default_sco_pcm : ScoParam
default_sco_pcm = record {
  routing = 0;
  clock_rate = 4;
  frame_type = 0;
  sync_mode = 0;
  clock_mode = 0;
}

abbrev pub default_pcm_data_fmt : PcmFormat
default_pcm_data_fmt = record {
  shift_mode = 0;
  fill_bits = 0;
  fill_method = 3;
  fill_num = 0;
  justify_mode = 0;
}

-- Every macro at its `#ifndef` default.
abbrev pub default_config : Config
default_config = record {
  runtime_tuning_enabled = false;
  conf_file = codes "/etc/bluetooth/bt_vendor.conf";
  uart_device_port = codes "/dev/ttyO1";
  fw_patchfile_location = codes "/vendor/firmware/";
  uart_target_baud_rate = 3_000_000;
  fw_patch_settlement_delay_ms = 0;
  use_controller_bdaddr = false;
  use_bluetooth_bcm4343 = false;
  lpm = default_lpm;
  lpm_idle_timeout_multiple = 10;
  bt_wake_via_userial_ioctl = false;
  bt_wake_userial_ldisc = false;
  bt_wake_via_proc = false;
  bt_wake_via_proc_notify_deassert = false;
  proc_btwrite_timer_timeout_ms = 8000;
  n_brcm_hci = 25;
  sco_cfg_included = true;
  sco_use_i2s_interface = false;
  sco_wbs_sample_rate = 1;
  sco_i2spcm = default_i2spcm;
  sco_i2spcm_if_clock_rate4wbs = 2;
  sco_pcm = default_sco_pcm;
  pcm_data_fmt = default_pcm_data_fmt;
  hw_end_with_hci_reset = false;
}

-- The overrides of vnd_nordic.txt.
abbrev pub nordic_config : Config
nordic_config = record default_config {
  uart_device_port = codes "/dev/ttymxc0";
  fw_patchfile_location = codes "/vendor/firmware/brcm";
  conf_file = codes "/vendor/etc/bluetooth/bt_vendor.conf";
  lpm_idle_timeout_multiple = 5;
  sco_use_i2s_interface = false;
  lpm = record default_lpm { sleep_mode = 0 };
  uart_target_baud_rate = 1_000_000;
}
