-- ===== src/Platform.antt =====
-- What the library does not implement: the stack's callbacks (`bt_vendor_callbacks_t`), system
-- calls, Android properties and termios. `Env` is a parameter of the model, and each of its
-- answers may depend on all calls made before; `Call` is one call with its answer.
use myir_bluetooth.Common.{ℕ, Bool, Option, List, Bytes}

-- `bt_vendor_op_result_t`.
pub data OpResult : Type 0 where
  success fail : OpResult

-- The event code that the library puts into each buffer it sends.
pub data BufEvent : Type 0 where
  stack_to_hc_hci_cmd : BufEvent

-- `HC_BT_HDR` of a command, and the bytes that were written behind it.
pub record Packet : Type 0 where
  pub event : BufEvent
  pub offset : ℕ
  pub layer_specific : ℕ
  pub len : ℕ
  pub bytes : Bytes

-- The buffer of a received event: its address, and the bytes behind its header.
pub record Evt : Type 0 where
  pub addr : ℕ
  pub bytes : Bytes

-- The functions that hardware.c hands to `xmit_cb` for the reply.
pub data Cback : Type 0 where
  hw_config lpm_ctrl sco_i2spcm_cfg set_msbc_codec set_cvsd_codec epilog : Cback

-- The macros of termios.h that userial_vendor.c names.
pub data Speed : Type 0 where
  b600 b1200 b9600 b19200 b57600 b115200 b230400 b460800 b921600 : Speed
  b1000000 b2000000 b3000000 b4000000 : Speed

pub data StopBits : Type 0 where
  no_flag cstopb : StopBits

-- `itimerspec` as armed, as disarmed by zeros, and with its memory never written.
pub data TimerSpec : Type 0 where
  armed : (sec nsec : ℕ) → TimerSpec
  disarmed uninitialised : TimerSpec

pub data IoctlOp : Type 0 where
  bt_wake_assert bt_wake_deassert bt_wake_get_st : IoctlOp
  tiocsetd : ℕ → IoctlOp

-- A file descriptor is `some fd`, and `none` is -1.
pub data Call : Type 0 where
  alloc : (size : ℕ) → Option ℕ → Call
  dealloc : (addr : ℕ) → Call
  xmit : (opcode addr : ℕ) → Packet → Cback → Bool → Call
  fwcfg_cb lpm_cb scocfg_cb audio_state_cb epilog_cb : OpResult → Call
  open_file : Bytes → Option ℕ → Call
  read_file : (fd count : ℕ) → Option Bytes → Call
  write_file : ℕ → Bytes → Bool → Call
  close_file : ℕ → Call
  list_dir : Bytes → Option (List Bytes) → Call
  property_get : (key value : Bytes) → Call
  nanosleep : (sec nsec : ℕ) → Call
  tcflush : ℕ → Call
  tcgetattr : ℕ → Call
  tcsetattr : Option ℕ → ℕ → Call
  ioctl : Option ℕ → IoctlOp → Call
  timer_create : Option ℕ → Call
  timer_settime : ℕ → TimerSpec → Call
  timer_delete : ℕ → Call

-- Newest first.
abbrev pub Trace : Type 0
Trace = List Call

-- The answers. `termios` is an opaque word that only these functions read. `xmit_cb` is
-- documented to return TRUE or FALSE. `read_file` gives the bytes read, or `none` for -1;
-- `nanosleep` stands for all its rounds after EINTR, `decimal` is `%d`, and `list_dir` is `opendir` and `readdir` up to the end of the directory. `conf_answer`
-- is the text of a file that `fopen` opens.
pub record Env : Type 0 where
  pub alloc_answer : Trace → ℕ → Option ℕ
  pub xmit_answer : Trace → ℕ → Packet → Bool
  pub open_answer : Trace → Bytes → Option ℕ
  pub read_answer : Trace → ℕ → ℕ → Option Bytes
  pub write_answer : Trace → ℕ → Bytes → Bool
  pub dir_answer : Trace → Bytes → Option (List Bytes)
  pub property_answer : Trace → Bytes → Bytes
  pub timer_answer : Trace → Option ℕ
  pub termios_answer : Trace → ℕ → ℕ
  pub cfmakeraw : ℕ → ℕ
  pub or_crtscts : ℕ → StopBits → ℕ
  pub cfsetspeed : ℕ → Speed → ℕ
  pub bt_hc_hdr_size : ℕ
  pub sco_codec_cvsd : ℕ
  pub sco_codec_msbc : ℕ
  pub ch_max : ℕ
  pub decimal : ℕ → Bytes
  pub conf_answer : Bytes → Option Bytes
  pub atoi : Bytes → Option ℕ
