-- ===== src/Hardware/Progress.antt =====
-- The configuration follows its state machine, keeps its invariant and ends.
use myir_bluetooth.Common.{
  bind_some, ℕ, ◌+◌, ◌≤◌, Bool, true, false, Option, none, some, List, [], ◌∷◌, ◌≡◌, ◌≢◌, ◌⊎◌, refl,
  arith, ◌<◌, inl, inr, length, ◌>>=◌,
}
use myir_bluetooth.Config.{Config}
use myir_bluetooth.Hardware.Handler.{free_evt, abort, finish, hw_config_cback, hw_config_start}
use myir_bluetooth.Hardware.Outcome.{
  refused, no_buffer, switched, hw_config_cback-Ended, after_alloc,
}
use myir_bluetooth.Hardware.Setup.{close_fw}
use myir_bluetooth.Hardware.Transitions.{dispatch-Moved}
use myir_bluetooth.Hardware.Machine.{edge, left, IsReady, Moved}
use myir_bluetooth.Ledger.{full_reads}
use myir_bluetooth.Platform.{Env, Evt}
use myir_bluetooth.World.{World, HwState, idle}

HwState-discrete : Discrete HwState
HwState-discrete = hlevel

-- What a call of the handler leaves: the invariant, and either the end, with no file held, or one
-- transition further on.
pub record Stepped (w w' : World) : Type 0 where
  pub ready : IsReady w'
  pub next :
      ((w'.hw.state ≡ idle) × (w'.hw.fw_fd ≡ none))
      ⊎ ((edge w.hw.state w'.hw.state ≡ true)
          × (left w' + full_reads w.trace + 1 ≤ left w + full_reads w'.trace))

module _ (c : Config) (e : Env) where
  finish-Stepped :
      (v : Evt) (p_buf : Option ℕ) (w : World) (r : World × Bool)
      → Moved w r
      → Stepped w (finish c e v p_buf r)
  unfolding finish free_evt abort close_fw
  finish-Stepped v p_buf w r m = ground arith

  abort-Stepped : (v : Evt) (w u : World) → Stepped w (finish c e v none (u, false))
  unfolding finish free_evt abort close_fw
  abort-Stepped v w u = ground arith

  -- From a state in which a patch file is open only while it is being downloaded or after a
  -- failed start of the download, each call of the handler that returns leaves such a state
  -- again. Either the configuration is over and no patch file is held, or the state moved along
  -- a transition, and the number of transitions left fell, unless a record was read.
  pub hw_config_cback-Stepped :
      (v : Evt) (w : World) {w' : World}
      → IsReady w
      → hw_config_cback c e v w ≡ some w'
      → Stepped w w'
  hw_config_cback-Stepped v w {w'} h eq = elim (hw_config_cback-Ended c e v w eq) [
    | refused end ↦ rw end (abort-Stepped v w w)
    | no_buffer on full end ↦ rw end (abort-Stepped v w _)
    | switched addr opcode r on got at end ↦
        let m : Moved (after_alloc c e w).0 r =
          dispatch-Moved c e w.hw.state v opcode addr (after_alloc c e w).0 refl
            (record { shut = h.shut }) at in
        rw end (finish-Stepped v (some addr) w r (ground arith))
  ]

  -- `hw_config_start` reaches such a state from any state.
  pub hw_config_start-IsReady : (w : World) → IsReady (hw_config_start c e w)
  unfolding hw_config_start
  hw_config_start-IsReady w = ground arith

  -- One call of the handler for each event that arrives.
  unfoldable pub run : List Evt → World → Option World
  run [] w = some w
  run (v ∷ vs) w = do w' ← hw_config_cback c e v w; run vs w'

  run_idle :
      (vs : List Evt) (w : World) {w' : World}
      → w.hw.state ≡ idle
      → IsReady w
      → run vs w ≡ some w'
      → w'.hw.state ≡ idle
  unfolding run
  run_idle [] w at h eq = ground arith
  run_idle (v ∷ vs) w {w'} at h eq =
      let (u, first, rest) = bind_some (hw_config_cback c e v w) _ eq in
      let s : Stepped w u = hw_config_cback-Stepped v w h first in
      run_idle vs u (ground arith) s.ready rest

  -- While the configuration is not over, each event uses up a transition or a record.
  run_bound :
      (vs : List Evt) (w : World) {w' : World}
      → IsReady w
      → run vs w ≡ some w'
      → w'.hw.state ≢ idle
      → length vs + left w' + full_reads w.trace ≤ left w + full_reads w'.trace
  unfolding run
  run_bound [] w h eq live = ground arith
  run_bound (v ∷ vs) w {w'} h eq live =
      let (u, first, rest) = bind_some (hw_config_cback c e v w) _ eq in
      let s : Stepped w u = hw_config_cback-Stepped v w h first in
      elim s.next [
        | inl (over, _) ↦ absurd (live (run_idle vs u over s.ready rest))
        | inr (_, fewer) ↦ omega (arith, run_bound vs u s.ready rest live)
      ]

  start_left : (w : World) → left (hw_config_start c e w) ≤ 12
  unfolding hw_config_start
  start_left w = ground arith

  -- After `hw_config_start`, whatever the controller sends and whatever the calls outside answer:
  -- if the handler has returned from more than 12 + n events, and at most `n` reads of the patch
  -- file gave three bytes or more, then the configuration is over.
  pub configuration_ends :
      (vs : List Evt) (n : ℕ) (w : World) {w' : World}
      → run vs (hw_config_start c e w) ≡ some w'
      → full_reads w'.trace ≤ full_reads (hw_config_start c e w).trace + n
      → 12 + n < length vs
      → w'.hw.state ≡ idle
  configuration_ends vs n w {w'} eq few many = elim (HwState-discrete w'.hw.state idle) [
    | yes over ↦ over
    | no live ↦ absurd (
        omega (
          arith,
          start_left w,
          run_bound vs (hw_config_start c e w) (hw_config_start-IsReady w) eq live,
        ))
  ]
