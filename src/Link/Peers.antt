-- ===== src/Link/Peers.antt =====
-- The other side, none of which is code of the repository: the stack's allocator and its `xmit_cb`,
-- a controller that answers each command, and a regular file. These are the assumptions that the
-- results on whole exchanges make.
use myir_bluetooth.Common.{
  refl, bind_some, ℕ, suc, zero, ◌+◌, ◌<◌, ◌^◌, true, Option, none, some, List, [], ◌∷◌, Bytes, ◌≡◌,
  ◌==◌, length, take, drop, if◌then◌else◌, ◌>>=◌, arith,
}
use myir_bluetooth.Config.{Config}
use myir_bluetooth.Hardware.Handler.{hw_config_cback}
use myir_bluetooth.Hardware.Hci.{evt_status, evt_opcode}
use myir_bluetooth.Hardware.Lpm.{hw_lpm_ctrl_cback, hw_epilog_cback}
use myir_bluetooth.Hardware.Sco.{
  hw_sco_i2spcm_cfg_cback, hw_set_msbc_codec_cback, hw_set_cvsd_codec_cback,
}
use myir_bluetooth.Ledger.{sends}
use myir_bluetooth.Platform.{Env, Evt, Cback, Packet, Trace, xmit, open_file, read_file}
use myir_bluetooth.World.{World}

-- The commands that the stack accepted, newest first.
abbrev pub commands : Trace → List Bytes
commands [] = []
commands (xmit _ _ p _ true ∷ t) = p.bytes ∷ commands t
commands (_ ∷ t) = commands t

-- The opcode of the newest command that the stack accepted, and the handler of its reply.
abbrev pub last_sent : Trace → Option (ℕ × Cback)
last_sent [] = none
last_sent (xmit opcode _ _ k true ∷ t) = some (opcode, k)
last_sent (_ ∷ t) = last_sent t

pub sends-commands : (t : Trace) → sends t ≡ length (commands t)
sends-commands [] = refl
sends-commands (call ∷ t) = ground (arith, sends-commands t)

-- A stack with a free buffer at each request, whose transport is up.
pub record Willing (e : Env) : Type 0 where
  pub buffer : Trace → ℕ → ℕ
  pub given : (t : Trace) (size : ℕ) → e.alloc_answer t size ≡ some (buffer t size)
  pub accepts : (t : Trace) (opcode : ℕ) (p : Packet) → e.xmit_answer t opcode p ≡ true

-- A controller that completes each command with status 0.
pub record Controller : Type 0 where
  pub reply : ℕ → Evt
  pub success : (opcode : ℕ) → evt_status (reply opcode) ≡ some 0
  pub echo : (opcode : ℕ) → opcode < 2 ^ 16 → evt_opcode (reply opcode) ≡ some opcode

-- The bytes read from a descriptor since it was opened.
abbrev pub position : ℕ → Trace → ℕ
position fd [] = 0
position fd (open_file _ (some n) ∷ t) = if n == fd then 0 else position fd t
position fd (read_file n _ (some b) ∷ t) =
    let before = position fd t in if n == fd then before + length b else before
position fd (_ ∷ t) = position fd t

-- `fd` is a regular file with these contents: `read` gives what follows the bytes already read, as
-- much as is asked for or is left.
pub record IsFile (e : Env) (fd : ℕ) (contents : Bytes) : Type 0 where
  pub reads :
      (t : Trace) (count : ℕ)
      → e.read_answer t fd count ≡ some (take count (drop (position fd t) contents))

module _ (c : Config) (e : Env) where
  -- The stack hands a reply to the function that `xmit_cb` was given with the command.
  unfoldable pub deliver : Cback → Evt → World → Option World
  deliver Cback.hw_config v w = hw_config_cback c e v w
  deliver Cback.lpm_ctrl v w = hw_lpm_ctrl_cback c e v w
  deliver Cback.sco_i2spcm_cfg v w = hw_sco_i2spcm_cfg_cback c e v w
  deliver Cback.set_msbc_codec v w = hw_set_msbc_codec_cback c e v w
  deliver Cback.set_cvsd_codec v w = hw_set_cvsd_codec_cback c e v w
  deliver Cback.epilog v w = hw_epilog_cback c e v w

  module _ (k : Controller) where
    open k use {reply}

    -- The controller answers the newest command.
    unfoldable pub turn : World → Option World
    unfolding deliver
    turn w = elim (last_sent w.trace) [
      | none ↦ some w
      | some (opcode, back) ↦ deliver back (reply opcode) w
    ]

    unfoldable pub turns : ℕ → World → Option World
    turns zero w = some w
    turns (suc n) w = do w₁ ← turn w; turns n w₁

    pub turns-add :
        (m n : ℕ) (w : World) {v w' : World}
        → turns m w ≡ some v
        → turns n v ≡ some w'
        → turns (m + n) w ≡ some w'
    unfolding turns
    turns-add zero n w {v} {w'} h k = let same : 0 + n ≡ n = omega arith in rw same (cc)
    turns-add (suc m) n w h k =
        let (u, first, rest) = bind_some (turn w) _ h in
        let one : suc m + n ≡ suc (m + n) = omega arith in rw (one, first) (turns-add m n u rest k)

    -- `n` replies, each of which led to one command, and one more.
    pub record Exchanged (n : ℕ) (w w' : World) : Type 0 where
      pub before : World
      pub ran : turns n w ≡ some before
      pub sent : sends before.trace ≡ sends w.trace + n
      pub last : turn before ≡ some w'

    pub Exchanged-next :
        (n : ℕ) (w w₁ w' : World)
        → turn w ≡ some w₁
        → sends w₁.trace ≡ sends w.trace + 1
        → Exchanged n w₁ w'
        → Exchanged (suc n) w w'
    unfolding turns
    Exchanged-next n w w₁ w' first one x = record {
      before = x.before;
      ran = rw first x.ran;
      sent = omega (arith, one, x.sent);
      last = x.last;
    }

    pub Exchanged-turns : (n : ℕ) (w w' : World) → Exchanged n w w' → turns (n + 1) w ≡ some w'
    unfolding turns
    Exchanged-turns n w w' x = turns-add n 1 w x.ran (rw x.last refl)
