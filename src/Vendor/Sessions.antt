-- ===== src/Vendor/Sessions.antt =====
-- Sessions of the stack with the library, as the steps that may follow each other: `init`, requests
-- through `op`, replies to commands, the timer's thread, and `cleanup`.
use myir_bluetooth.Common.{
  ℕ, suc, ◌+◌, ◌≤◌, ◌<◌, Bool, true, false, some, List, [], ◌∷◌, ◌≡◌, refl, arith, ◌∙◌,
}
use myir_bluetooth.Config.{Config}
use myir_bluetooth.Ledger.{allocs, deallocs, sends}
use myir_bluetooth.Link.Peers.{deliver}
use myir_bluetooth.Platform.{Env, Evt, Cback}
use myir_bluetooth.Upio.Signal.{
  upio_init, upio_set, set_bt_wake, upio_cleanup, proc_btwrite_timeout,
}
use myir_bluetooth.Upio.Timers.{IsTimed}
use myir_bluetooth.Userial.Port.{userial_vendor_init}
use myir_bluetooth.Vendor.Accounts.{Accounted, outcomes, timeout-Beside}
use myir_bluetooth.Vendor.Interface.{Op, Reply, init, op, cleanup}
use myir_bluetooth.Vendor.Requests.{request, op-Accounted}
use myir_bluetooth.Vendor.Replies.{
  Ready, at_rest, keeps-Ready, op-Ready, deliver-Accounted, timeout-Ready,
}
use myir_bluetooth.World.{World, BdAddr, initial}

pub data Step : Type 0 where
  initialised timed_out cleaned_up : Step
  asked : Op → Step
  answered : Cback → Step

-- The requests for an outcome, and the replies.
abbrev pub requests : List Step → ℕ
requests [] = 0
requests (asked o ∷ h) = request o + requests h
requests (_ ∷ h) = requests h

abbrev pub answers : List Step → ℕ
answers [] = 0
answers (answered _ ∷ h) = suc (answers h)
answers (_ ∷ h) = answers h

-- `Session c e up h w`: the steps in `h`, newest first, lead from the loaded library to `w`, and
-- `up` says that the last `init` was not followed by `cleanup`. The stack calls `op` only in
-- between, and it delivers no more replies than there were commands; a step is a call that returns.
pub data Session (c : Config) (e : Env) : Bool → List Step → World → Type 0 where
  loaded : Session c e false [] (initial c)
  initialise :
      (h : List Step) (w : World) (bd : BdAddr)
      → Session c e false h w
      → Session c e true (initialised ∷ h) (init c e true bd w).0
  ask :
      (h : List Step) (w : World) (fuel : ℕ) (o : Op) (r : Reply)
      → Session c e true h w
      → op c e fuel o w ≡ some r
      → Session c e true (asked o ∷ h) r.world
  answer :
      (h : List Step) (w w' : World) (k : Cback) (v : Evt)
      → Session c e true h w
      → answers h < sends w.trace
      → deliver c e k v w ≡ some w'
      → Session c e true (answered k ∷ h) w'
  time_out :
      (up : Bool) (h : List Step) (w : World)
      → Session c e up h w
      → c.bt_wake_via_proc ≡ true
      → Session c e up (timed_out ∷ h) (proc_btwrite_timeout c e w)
  clean_up :
      (h : List Step) (w : World)
      → Session c e true h w
      → Session c e false (cleaned_up ∷ h) (cleanup c e w)

-- What holds at each point of a session.
pub record Sound (c : Config) (up : Bool) (h : List Step) (w : World) : Type 0 where
  pub callbacks : w.cbacks ≡ up
  pub outcome : sends w.trace + outcomes w.trace ≤ requests h + answers h
  pub causal : answers h ≤ sends w.trace
  pub buffers : sends w.trace + deallocs w.trace ≤ allocs w.trace + answers h
  pub timed : IsTimed w
  pub stopped : up ≡ false → c.bt_wake_via_proc ≡ true → w.upio.timer_created ≡ false
  pub ready : Ready w
  pub path : w.hw.fw_patchfile_path ≡ c.fw_patchfile_location
  pub name : w.hw.fw_patchfile_name ≡ []

module _ (c : Config) (e : Env) where
  initialise-Sound :
      (h : List Step) (w : World) (bd : BdAddr)
      → Sound c false h w
      → Sound c true (initialised ∷ h) (init c e true bd w).0
  unfolding init upio_init userial_vendor_init
  initialise-Sound h w bd s =
      let v : World = (init c e true bd w).0 in
      let stopped = s.stopped refl in
      record {
        callbacks = ground arith;
        outcome = ground arith;
        causal = ground arith;
        buffers = ground arith;
        timed = ground arith;
        stopped = λ down _. absurd (ground arith);
        ready = keeps-Ready c e w v (ground arith) s.ready;
        path = ground arith;
        name = ground arith;
      }

  ask-Sound :
      (h : List Step) (w : World) (fuel : ℕ) (o : Op) (r : Reply)
      → Sound c true h w
      → op c e fuel o w ≡ some r
      → Sound c true (asked o ∷ h) r.world
  ask-Sound h w fuel o r s eq =
      let k : Accounted 0 0 (request o) 0 w r.world = (op-Accounted c e 0 fuel o w eq).0 in
      record {
        callbacks = ground arith;
        outcome = ground arith;
        causal = ground arith;
        buffers = ground arith;
        timed = ground arith;
        stopped = λ down _. absurd (ground arith);
        ready = op-Ready c e fuel o w eq s.ready;
        path = ground arith;
        name = ground arith;
      }

  answer-Sound :
      (h : List Step) (w w' : World) (k : Cback) (v : Evt)
      → Sound c true h w
      → answers h < sends w.trace
      → deliver c e k v w ≡ some w'
      → Sound c true (answered k ∷ h) w'
  answer-Sound h w w' k v s more eq =
      let (a, ready) = deliver-Accounted c e 0 k v w s.ready eq in
      record {
        callbacks = ground arith;
        outcome = ground arith;
        causal = ground arith;
        buffers = ground arith;
        timed = ground arith;
        stopped = λ down _. absurd (ground arith);
        ready = ready;
        path = ground arith;
        name = ground arith;
      }

  timeout_created :
      (w : World) → (proc_btwrite_timeout c e w).upio.timer_created ≡ w.upio.timer_created
  unfolding proc_btwrite_timeout upio_set set_bt_wake
  timeout_created w = ground arith

  time_out-Sound :
      (up : Bool) (h : List Step) (w : World)
      → Sound c up h w
      → Sound c up (timed_out ∷ h) (proc_btwrite_timeout c e w)
  time_out-Sound up h w s =
      let k : Accounted 0 0 0 0 w (proc_btwrite_timeout c e w) = (timeout-Beside c e 0 w).0 in
      record {
        callbacks = ground arith;
        outcome = ground arith;
        causal = ground arith;
        buffers = ground arith;
        timed = ground arith;
        stopped = λ down proc. timeout_created w ∙ s.stopped down proc;
        ready = timeout-Ready c e w s.ready;
        path = ground arith;
        name = ground arith;
      }

  clean_up-Sound :
      (h : List Step) (w : World)
      → Sound c true h w
      → Sound c false (cleaned_up ∷ h) (cleanup c e w)
  unfolding cleanup upio_cleanup
  clean_up-Sound h w s = record {
    callbacks = refl;
    outcome = ground arith;
    causal = ground arith;
    buffers = ground arith;
    timed = ground arith;
    stopped = λ down proc. ground arith;
    ready = keeps-Ready c e w _ (ground arith) s.ready;
    path = ground arith;
    name = ground arith;
  }

  pub Session-Sound : (up : Bool) (h : List Step) (w : World) → Session c e up h w → Sound c up h w
  Session-Sound _ _ _ loaded = record {
    callbacks = refl;
    outcome = omega arith;
    causal = omega arith;
    buffers = omega arith;
    timed = record { alive = refl };
    stopped = λ _ _. refl;
    ready = at_rest refl;
    path = refl;
    name = refl;
  }
  Session-Sound _ _ _ (initialise h w bd s) = initialise-Sound h w bd (Session-Sound false h w s)
  Session-Sound _ _ _ (ask h w fuel o r s eq) = ask-Sound h w fuel o r (Session-Sound true h w s) eq
  Session-Sound _ _ _ (answer h w w' k v s more eq) =
      answer-Sound h w w' k v (Session-Sound true h w s) more eq
  Session-Sound _ _ _ (time_out up h w s proc) = time_out-Sound up h w (Session-Sound up h w s)
  Session-Sound _ _ _ (clean_up h w s) = clean_up-Sound h w (Session-Sound true h w s)

  -- In each session the stack is told at most one outcome for each request for one.
  pub Session-outcomes :
      (up : Bool) (h : List Step) (w : World) → Session c e up h w → outcomes w.trace ≤ requests h
  Session-outcomes up h w s = let k : Sound c up h w = Session-Sound up h w s in ground arith
