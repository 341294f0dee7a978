-- ===== src/Tests/Signals.antt =====
-- The signals, the timer and the power.
use myir_bluetooth.Common.{ℕ, Bytes, Option, true, none, some, ◌≡◌, ◌≢◌, refl, arith, codes}
use myir_bluetooth.Config.{Config, nordic_config}
use myir_bluetooth.Tests.Bench.{bench, ready}
use myir_bluetooth.Upio.Rfkill.{Nodes}
use myir_bluetooth.Upio.Signal.{upio_set, proc_btwrite_timeout, upio_cleanup}
use myir_bluetooth.Upio.Timers.{IsTimed, upio-IsTimed}
use myir_bluetooth.World.{World, Pio, assert}

-- The same configuration with the proc nodes compiled in.
abbrev proc_config : Config
proc_config = record nordic_config { bt_wake_via_proc = true }

ready-IsTimed : IsTimed ready
ready-IsTimed = record { alive = refl }

-- A session in which low power mode is on, with its timer.
abbrev awake : World
awake = upio_set proc_config bench Pio.lpm_mode assert 0 ready

upio-IsTimed_example :
    IsTimed awake
    × IsTimed (proc_btwrite_timeout proc_config bench ready)
    × IsTimed (upio_cleanup proc_config bench ready)
upio-IsTimed_example = upio-IsTimed proc_config bench Pio.lpm_mode assert 0 ready ready-IsTimed

no_node : {x : ℕ × Option Bytes} → some x ≢ none
no_node h = ground arith

same_node :
    {fd : ℕ} {r : Option Bytes}
    → ◌≡◌ {A = Option (ℕ × Option Bytes)} (some (5, some (codes "bluetooth"))) (some (fd, r))
    → (◌≡◌ {A = Option ℕ} (some 5) (some fd))
      × (◌≡◌ {A = Option Bytes} (some (codes "bluetooth")) r)
same_node h = ground arith

-- Every node of `bench` is Bluetooth's.
abbrev nodes : Nodes bench
nodes = record {
  node = λ id. some (5, some (codes "bluetooth"));
  opened = λ id w h. absurd (no_node h);
  opened_some = λ id fd r w h. ((same_node h).0, λ v. (same_node h).1);
}
