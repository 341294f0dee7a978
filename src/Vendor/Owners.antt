-- ===== src/Vendor/Owners.antt =====
-- Who owns the buffer at one address, through a session.
use myir_bluetooth.Common.{ℕ, ◌+◌, ◌≤◌, Bool, true, List, ◌≡◌, arith}
use myir_bluetooth.Config.{Config}
use myir_bluetooth.Ledger.{once_at, takes, gives}
use myir_bluetooth.Platform.{Env}
use myir_bluetooth.Upio.Signal.{upio_init, upio_cleanup}
use myir_bluetooth.Userial.Port.{userial_vendor_init}
use myir_bluetooth.Vendor.Accounts.{timeout-Beside}
use myir_bluetooth.Vendor.Interface.{init, cleanup}
use myir_bluetooth.Vendor.Requests.{op-Accounted}
use myir_bluetooth.Vendor.Replies.{deliver-Accounted}
use myir_bluetooth.Vendor.Sessions.{
  Step, Session, loaded, initialise, ask, answer, time_out, clean_up, Sound, Session-Sound,
}
use myir_bluetooth.World.{World, BdAddr}

-- How many of the replies of a session came in the buffer at `a`.
pub events :
    {c : Config} {e : Env} {up : Bool} {h : List Step} {w : World} (a : ℕ) → Session c e up h w → ℕ
events a loaded = 0
events a (initialise h w bd s) = events a s
events a (ask h w fuel o r s eq) = events a s
events a (answer h w w' k v s more eq) = once_at v.addr a + events a s
events a (time_out up h w s proc) = events a s
events a (clean_up h w s) = events a s

module _ (c : Config) (e : Env) (a : ℕ) where
  init-gives :
      (w : World) (bd : BdAddr)
      → (gives a (init c e true bd w).0.trace ≡ gives a w.trace)
        × (takes a (init c e true bd w).0.trace ≡ takes a w.trace)
  unfolding init upio_init userial_vendor_init
  init-gives w bd = ground arith

  cleanup-gives :
      (w : World)
      → (gives a (cleanup c e w).trace ≡ gives a w.trace)
        × (takes a (cleanup c e w).trace ≡ takes a w.trace)
  unfolding cleanup upio_cleanup
  cleanup-gives w = ground arith

  -- At each point of each session and for each address: the buffer there was freed, or handed to
  -- the stack with a command that it accepted, at most as often as it was received, from the
  -- allocator or as the buffer of a reply.
  pub gives-le-takes :
      (up : Bool) (h : List Step) (w : World) (s : Session c e up h w)
      → gives a w.trace ≤ takes a w.trace + events a s
  unfolding events
  gives-le-takes _ _ _ loaded = omega arith
  gives-le-takes _ _ _ (initialise h w bd s) =
      ground (arith, init-gives w bd, gives-le-takes _ h w s)
  gives-le-takes _ _ _ (ask h w fuel o r s eq) =
      let (k, _) = op-Accounted c e a fuel o w eq in
      let before = gives-le-takes _ h w s in ground (arith, k.owned)
  gives-le-takes _ _ _ (answer h w w' k v s more eq) =
      let sound : Sound c _ h w = Session-Sound c e _ h w s in
      let (t, _) = deliver-Accounted c e a k v w sound.ready eq in
      let before = gives-le-takes _ h w s in ground (arith, t.owned)
  gives-le-takes _ _ _ (time_out up h w s proc) =
      let (k, _) = timeout-Beside c e a w in
      let before = gives-le-takes up h w s in ground (arith, k.owned)
  gives-le-takes _ _ _ (clean_up h w s) = ground (arith, cleanup-gives w, gives-le-takes _ h w s)
