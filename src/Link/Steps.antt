-- ===== src/Link/Steps.antt =====
-- One reply: what the handler of the configuration sends next, with a willing stack.
use myir_bluetooth.Common.{
  ℕ, ◌+◌, ◌<◌, ◌^◌, Bool, true, Option, some, List, [], ◌∷◌, Bytes, ◌≡◌, arith, ap, sym, ◌∙◌, ◌++◌,
}
use mathlib.Core.List.{append_assoc, reverse}
use myir_bluetooth.Config.{Config}
use myir_bluetooth.Hardware.Handler.{dispatch, free_evt, finish, with_buffer, hw_config_cback}
use myir_bluetooth.Hardware.Hci.{hci_cmd_max_len}
use myir_bluetooth.Ledger.{fw_reports}
use myir_bluetooth.Link.Peers.{commands, last_sent, Willing, Controller, position, deliver, turn}
use myir_bluetooth.Platform.{Env, Cback}
use myir_bluetooth.World.{World, HwState, call_alloc}

-- The configuration waits in state `s` for the reply to `opcode`; `second` says that the download
-- is over, and `fw` is the open patch file.
pub record Waits (s : HwState) (second : Bool) (fw : Option ℕ) (opcode : ℕ) (w : World)
    : Type 0 where
  pub state : w.hw.state ≡ s
  pub flag : w.hw.f_set_baud_2 ≡ second
  pub file : w.hw.fw_fd ≡ fw
  pub callbacks : w.cbacks ≡ true
  pub last : last_sent w.trace ≡ some (opcode, Cback.hw_config)

-- From `w` to `w'` the commands in `sent` were accepted, newest first, no outcome was told,
-- and `size` bytes were read from `fd`.
pub record Sends (fd size : ℕ) (sent : List Bytes) (w w' : World) : Type 0 where
  pub logged : commands w'.trace ≡ sent ++ commands w.trace
  pub untold : fw_reports w'.trace ≡ fw_reports w.trace
  pub offset : position fd w'.trace ≡ position fd w.trace + size
  pub address : w'.bd_addr ≡ w.bd_addr
  pub path : w'.hw.fw_patchfile_path ≡ w.hw.fw_patchfile_path
  pub name : w'.hw.fw_patchfile_name ≡ w.hw.fw_patchfile_name

-- From `w` to `w'` the commands in `sent` were accepted, in this order, and no outcome was told.
pub record Adds (sent : List Bytes) (w w' : World) : Type 0 where
  pub logged : commands w'.trace ≡ reverse sent ++ commands w.trace
  pub untold : fw_reports w'.trace ≡ fw_reports w.trace
  pub address : w'.bd_addr ≡ w.bd_addr

-- What a case of the `switch` that ran in `u` with result `r` sent, and the reply that it waits for.
pub record Sent (fd size : ℕ) (bytes : Bytes) (s : HwState) (second : Bool) (fw : Option ℕ)
    (opcode : ℕ) (u : World) (r : World × Bool) : Type 0 where
  pub proceeds : r.1 ≡ true
  pub waits : Waits s second fw opcode r.0
  pub sends : Sends fd size (bytes ∷ []) u r.0

pub Sends-append :
    (fd m n : ℕ) (xs ys : List Bytes) (u v w : World)
    → Sends fd m xs u v
    → Sends fd n ys v w
    → Sends fd (m + n) (ys ++ xs) u w
Sends-append fd m n xs ys u v w h k = record {
  logged = k.logged ∙ ap (λ t. ys ++ t) h.logged ∙ sym (append_assoc ys xs (commands u.trace));
  untold = k.untold ∙ h.untold;
  offset = omega (arith, h.offset, k.offset);
  address = k.address ∙ h.address;
  path = k.path ∙ h.path;
  name = k.name ∙ h.name;
}

module _ (c : Config) (e : Env) (up : Willing e) (k : Controller) where
  open up use {buffer, given}
  open k use {reply, success, echo}

  -- The state in which the `switch` runs: a buffer has been received.
  abbrev pub served : World → World
  served w = (call_alloc e (e.bt_hc_hdr_size + hci_cmd_max_len) w).0

  abbrev pub spare : World → ℕ
  spare w = buffer w.trace (e.bt_hc_hdr_size + hci_cmd_max_len)

  pub served-Waits :
      {s : HwState} {b : Bool} {f : Option ℕ} {opcode : ℕ} (w : World)
      → Waits s b f opcode w
      → Waits s b f opcode (served w)
  served-Waits w h = ground arith

  -- A case of the `switch` that proceeds is what the turn does, but for the event's buffer.
  pub turn-dispatch :
      {s : HwState} {second : Bool} {fw : Option ℕ} (opcode : ℕ) (w u : World)
      → opcode < 2 ^ 16
      → Waits s second fw opcode w
      → dispatch c e s (reply opcode) opcode (spare w) (served w) ≡ some (u, true)
      → turn c e k w ≡ some (free_evt c e (reply opcode) u)
  unfolding turn deliver hw_config_cback with_buffer finish
  turn-dispatch opcode w u small h case =
      ground (
        arith,
        success opcode,
        echo opcode small,
        given w.trace (e.bt_hc_hdr_size + hci_cmd_max_len),
      )

  -- After one turn, a command was sent and its reply is awaited.
  abbrev pub Next : ℕ → ℕ → Bytes → HwState → Bool → Option ℕ → ℕ → World → Type 0
  Next fd size bytes s second fw opcode w =
      (w' : World) × (turn c e k w ≡ some w')
      × Waits s second fw opcode w'
      × Sends fd size (bytes ∷ []) w w'

  pub turn-Sent :
      {s s' : HwState} {b b' : Bool} {f f' : Option ℕ} {opcode' : ℕ} {bytes : Bytes}
      (fd size opcode : ℕ) (w : World) (r : World × Bool)
      → opcode < 2 ^ 16
      → Waits s b f opcode w
      → dispatch c e s (reply opcode) opcode (spare w) (served w) ≡ some r
      → Sent fd size bytes s' b' f' opcode' (served w) r
      → Next fd size bytes s' b' f' opcode' w
  unfolding free_evt
  turn-Sent fd size opcode w r small h case m = (
    free_evt c e (reply opcode) r.0,
    turn-dispatch opcode w r.0 small h (ground arith),
    ground arith,
    ground (arith, given w.trace (e.bt_hc_hdr_size + hci_cmd_max_len)),
  )
