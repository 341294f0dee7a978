-- ===== src/Vendor/Outcomes.antt =====
-- In a session with a willing stack every request comes to its outcome.
use myir_bluetooth.Common.{◌+◌, ◌≤◌, Bool, true, List, ◌≡◌, ◌≢◌, arith, All}
use myir_bluetooth.Config.{Config}
use myir_bluetooth.Ledger.{sends}
use myir_bluetooth.Link.Peers.{Willing}
use myir_bluetooth.Platform.{Env}
use myir_bluetooth.Upio.Signal.{upio_init, upio_cleanup, proc_btwrite_timeout}
use myir_bluetooth.Userial.Port.{userial_vendor_init}
use myir_bluetooth.Vendor.Accounts.{outcomes, timeout-Beside}
use myir_bluetooth.Vendor.Interface.{init, cleanup, sco_cfg}
use myir_bluetooth.Vendor.Promises.{Grows, deliver-Grows, op-Grows}
use myir_bluetooth.Vendor.Sessions.{
  Step, asked, Session, loaded, initialise, ask, answer, time_out, clean_up, requests, answers,
  Sound, Session-Sound,
}
use myir_bluetooth.World.{World, BdAddr}

-- Not a request for the settings of SCO, whose outcome has no part in `outcomes`.
abbrev pub IsCounted : Step → Type 0
IsCounted (asked o) = o ≢ sco_cfg
IsCounted _ = Unit {0}

module _ (c : Config) (e : Env) where
  init-Grows : (w : World) (bd : BdAddr) → Grows 0 w (init c e true bd w).0
  unfolding init upio_init userial_vendor_init
  init-Grows w bd = ground arith

  cleanup-Grows : (w : World) → Grows 0 w (cleanup c e w)
  unfolding cleanup upio_cleanup
  cleanup-Grows w = ground arith

  timeout-Grows : (w : World) → Grows 0 w (proc_btwrite_timeout c e w)
  timeout-Grows w = let (k, _) = timeout-Beside c e 0 w in omega (arith, k.growing, k.telling)

module _ (c : Config) (e : Env) (up : Willing e) (included : c.sco_cfg_included ≡ true) where
  none_lost :
      (on : Bool) (h : List Step) (w : World)
      → Session c e on h w
      → All IsCounted h
      → requests h + answers h ≤ sends w.trace + outcomes w.trace
  none_lost _ _ _ loaded all = omega arith
  none_lost _ _ _ (initialise h w bd s) all =
      omega (arith, init-Grows c e w bd, none_lost _ h w s all.1)
  none_lost _ _ _ (ask h w fuel o r s eq) all =
      let sound : Sound c _ h w = Session-Sound c e _ h w s in
      omega
        (arith, op-Grows c e up fuel o w included sound.callbacks all.0 eq, none_lost _ h w s all.1)
  none_lost _ _ _ (answer h w w' back v s more eq) all =
      let sound : Sound c _ h w = Session-Sound c e _ h w s in
      omega
        (arith, deliver-Grows c e back v w sound.ready sound.callbacks eq, none_lost _ h w s all.1)
  none_lost _ _ _ (time_out on h w s proc) all =
      omega (arith, timeout-Grows c e w, none_lost on h w s all.1)
  none_lost _ _ _ (clean_up h w s) all = omega (arith, cleanup-Grows c e w, none_lost _ h w s all.1)

  -- At each point of each session with a willing stack, in a build with the operations on SCO and
  -- with no request for the settings of SCO: if every command was answered, whatever the replies
  -- said, then the stack was told of exactly as many outcomes as it made requests for one.
  pub outcomes-requests :
      (on : Bool) (h : List Step) (w : World)
      → Session c e on h w
      → All IsCounted h
      → answers h ≡ sends w.trace
      → outcomes w.trace ≡ requests h
  outcomes-requests on h w s all answered =
      let sound : Sound c on h w = Session-Sound c e on h w s in
      omega (arith, sound.outcome, none_lost on h w s all)
