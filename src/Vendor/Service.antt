-- ===== src/Vendor/Service.antt =====
-- What a session gets from its requests, with a willing stack and a controller that answers.
use myir_bluetooth.Common.{
  Bool, ℕ, ◌+◌, ◌<◌, ◌∷◌, sym, true, some, List, ◌++◌, Bytes, ◌≡◌, refl, arith, length,
}
use mathlib.Core.List.{reverse}
use myir_bluetooth.Config.{Config}
use myir_bluetooth.Hardware.Handler.{hw_config_start}
use myir_bluetooth.Hardware.Sco.{hw_set_sco_codec, select_codec}
use myir_bluetooth.Ledger.{fw_reports, audio_reports, sends}
use myir_bluetooth.Link.Address.{Addressed}
use myir_bluetooth.Link.Audio.{Settled}
use myir_bluetooth.Link.Codec.{effective, audio_configuration, audio_configuration_lem}
use myir_bluetooth.Link.Configuration.{configuration, configuration_lem}
use myir_bluetooth.Link.Records.{PatchCommand, contents, IsPatch}
use myir_bluetooth.Link.Reports.{Configured}
use myir_bluetooth.Link.Missing.{Lacks, plain_configuration, plain_configuration_lem}
use myir_bluetooth.Link.Naming.{Offers}
use myir_bluetooth.Link.Peers.{
  Exchanged, Exchanged-turns, Willing, Controller, IsFile, commands, turns,
}
use myir_bluetooth.Platform.{Env}
use myir_bluetooth.Vendor.Interface.{
  Reply, RetVal, Op, done, value, fw_cfg, set_audio_state, op, hw_set_audio_state,
}
use myir_bluetooth.Vendor.Sessions.{
  Step, asked, Session, ask, requests, answers, Sound, Session-Sound,
}
use myir_bluetooth.Vendor.Exchanges.{Exchanged-Continued}
use myir_bluetooth.Vendor.Requests.{request}
use myir_bluetooth.World.{World}

-- In the session `h` at `w`, the operation returns `result`; with one reply for each command in `sent` a
-- state of `P` is reached, in which the session goes on.
abbrev pub Serves :
    (c : Config) (e : Env) (k : Controller) (h : List Step) (fuel : ℕ) (o : Op) (w : World)
    → RetVal
    → List Bytes
    → (World → Type 0)
    → Type 0
Serves c e k h fuel o w result sent P =
    (r : Reply) × (op c e fuel o w ≡ some r)
    × (r.retval ≡ result)
    × (w' : World) × (turns c e k (length sent) r.world ≡ some w')
    × P w'
    × (h' : List Step) × Session c e true h' w'
    × (requests h' ≡ requests h + 1)
    × (answers h' ≡ answers h + length sent)

pub serve :
    (c : Config) (e : Env) (k : Controller) (h : List Step) (fuel : ℕ) (o : Op) (w w' : World)
    (r : Reply) (n : ℕ) (sent : List Bytes) {P : World → Type 0}
    → Session c e true h w
    → op c e fuel o w ≡ some r
    → request o ≡ 1
    → sends r.world.trace ≡ sends w.trace + 1
    → Exchanged c e k n r.world w'
    → n + 1 ≡ length sent
    → P w'
    → Serves c e k h fuel o w r.retval sent P
serve c e k h fuel o w w' r n sent session ran asks one x count there =
    let s : Sound c true h w = Session-Sound c e true h w session in
    let u : World = r.world in
    let next : Session c e true (asked o ∷ h) u = ask h w fuel o r session ran in
    let more : answers h < sends u.trace = omega (arith, s.causal) in
    let (h', session', same, replies) = Exchanged-Continued c e k n (asked o ∷ h) u next more x in
    (
      r,
      ran,
      refl,
      w',
      rw (sym count) (Exchanged-turns c e k n u w' x),
      there,
      h',
      session',
      omega arith,
      omega arith,
    )

module _ (c : Config) (e : Env) (up : Willing e) (k : Controller) where
  -- At each point of a session between `init` and `cleanup`, BT_VND_OP_FW_CFG with a patch file that
  -- the controller's name leads to: it returns 0; with one reply for each command, the stack carries
  -- exactly two resets with the speed after each, the request for the name and the start of the
  -- download behind the first, the file's records unchanged and in order, and at the end the address,
  -- or the request for the controller's own and the address only if that is all zeros; then the state
  -- is idle, the file is closed, the stack was told once of the success, and the session goes on. The
  -- stack is willing, each command completes with status 0, no record of the file but the last
  -- launches the patch, and the controller's own address is in its reply if it is to be used. The
  -- reply with the name has a NUL at or behind position 32 of the name, and from the chip's name on
  -- at least 248 bytes, which the search clears, and room for the file's path and its NUL; path and
  -- name of the file have at most 248 bytes together.
  pub fw_cfg_lem :
      (name : Bytes) (fd : ℕ) (rs : List PatchCommand) (null : Bool) (h : List Step) (w : World)
      (fuel : ℕ)
      → Session c e true h w
      → Addressed c k null
      → Offers c e k c.fw_patchfile_location name fd
      → IsFile e fd (contents rs)
      → IsPatch rs
      → let sent = configuration c null w.bd_addr rs in
        Serves c e k h fuel fw_cfg w
          (value 0)
          sent
          (Configured (fw_reports w.trace) (reverse sent ++ commands w.trace))
  unfolding op
  fw_cfg_lem name fd rs null h w fuel session read offer file patch =
      let s : Sound c true h w = Session-Sound c e true h w session in
      let (one, w', x, configured) =
        configuration_lem c e up k c.fw_patchfile_location name fd rs offer file patch null w read
          s.callbacks s.path s.name in
      serve c e k h fuel fw_cfg w w' (done (hw_config_start c e w)) _
        (configuration c null w.bd_addr rs) session refl refl one x (omega arith) configured

  -- The same operation where the directory of the patch files cannot be opened: nothing is
  -- downloaded. It returns 0; with one reply for each command, the stack carries exactly one reset,
  -- the speed, the request for the name, and the address, even if the address should be the
  -- controller's own; then the state is idle, no file is held, the stack was told once of the success,
  -- and the session goes on. The stack is willing and each command completes with status 0. The
  -- reply with the name has a NUL at or behind position 32 of the name, and where the chip is called
  -- by its number alone, room for the 31 bytes that are written over that number.
  pub fw_cfg_without_patch :
      (h : List Step) (w : World) (fuel : ℕ)
      → Session c e true h w
      → Lacks c e k c.fw_patchfile_location
      → let sent = plain_configuration c w.bd_addr in
        Serves c e k h fuel fw_cfg w
          (value 0)
          sent
          (Configured (fw_reports w.trace) (reverse sent ++ commands w.trace))
  unfolding op
  fw_cfg_without_patch h w fuel session lack =
      let s : Sound c true h w = Session-Sound c e true h w session in
      let (one, w', x, configured) =
        plain_configuration_lem c e up k c.fw_patchfile_location lack w s.callbacks s.path s.name in
      serve c e k h fuel fw_cfg w w' (done (hw_config_start c e w)) _
        (plain_configuration c w.bd_addr) session refl refl one x (omega arith) configured

  -- At each point of a session between `init` and `cleanup`, BT_VND_OP_SET_AUDIO_STATE, if it is
  -- compiled in: it returns 0; with one reply for each command, the stack carries exactly the codec's
  -- command and its I2S/PCM parameters, and on a PCM bus the SCO parameters and the PCM format; the
  -- settings are the codec's, the stack was told once of the success, and the session goes on. The
  -- stack is willing and each command completes with status 0.
  pub set_audio_state_lem :
      (h : List Step) (w : World) (fuel codec : ℕ)
      → Session c e true h w
      → c.sco_cfg_included ≡ true
      → let sent = audio_configuration c e codec w.sco in
        Serves c e k h fuel (set_audio_state codec) w (value 0) sent (
          Settled
            (audio_reports w.trace)
            (select_codec c e (effective e codec) w.sco)
            (reverse sent ++ commands w.trace))
  unfolding op hw_set_audio_state
  set_audio_state_lem h w fuel codec session included =
      let s : Sound c true h w = Session-Sound c e true h w session in
      let (taken, one, w', x, settled) = audio_configuration_lem c e up k codec w s.callbacks in
      serve c e k h fuel (set_audio_state codec) w w' (done (hw_set_sco_codec c e codec w).0) _
        (audio_configuration c e codec w.sco) session (ground arith) refl one x (omega arith)
        settled
