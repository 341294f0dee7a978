-- ===== src/Tests/Setup.antt =====
-- The configuration of the controller.
use myir_bluetooth.Common.{none, List, [], ◌∷◌, ◌≡◌, refl, arith, replicate, codes, ◌++◌, inl, some}
use myir_bluetooth.Config.{nordic_config}
use myir_bluetooth.Hardware.Handler.{
  hw_config_cback, hw_config_start, with_buffer, dispatch, finish, free_evt, abort,
}
use myir_bluetooth.Hardware.Hci.{evt_opcode}
use myir_bluetooth.Hardware.Outcome.{Handled, hw_config_cback-Handled}
use myir_bluetooth.Hardware.Progress.{
  Stepped, hw_config_cback-Stepped, hw_config_start-IsReady, run, configuration_ends,
}
use myir_bluetooth.Hardware.Setup.{on_start, on_set_uart_clock, close_fw}
use myir_bluetooth.Platform.{Env, Evt}
use myir_bluetooth.Tests.Bench.{bench, ready, reset_done, value_or}
use myir_bluetooth.Hardware.Totality.{hw_config_cback_total}
use myir_bluetooth.World.{World, idle, read_local_name}

abbrev started : World
started = hw_config_start nordic_config bench ready

abbrev stepped : World
stepped = value_or (hw_config_cback nordic_config bench reset_done started) started

hw_config_cback-Handled_example : Handled 7 reset_done started stepped
unfolding hw_config_start hw_config_cback with_buffer dispatch on_start on_set_uart_clock finish
    free_evt evt_opcode
hw_config_cback-Handled_example =
    hw_config_cback-Handled nordic_config bench 7 reset_done started refl
      (λ h. absurd (ground arith)) refl

hw_config_cback-Stepped_example : Stepped started stepped
unfolding hw_config_start hw_config_cback with_buffer dispatch on_start on_set_uart_clock finish
    free_evt evt_opcode
hw_config_cback-Stepped_example =
    hw_config_cback-Stepped nordic_config bench reset_done started
      (hw_config_start-IsReady nordic_config bench ready) refl

-- A system that has one buffer only: the reply finds none, and the configuration aborts.
abbrev once : Env
once = record bench { alloc_answer = λ t size. elim t [ [] ↦ some 4096 | _ ↦ none ] }

abbrev replies : List Evt
replies = replicate 13 reset_done

abbrev aborted : World
aborted = value_or (run nordic_config once replies (hw_config_start nordic_config once ready)) ready

configuration_ends_example : aborted.hw.state ≡ idle
unfolding run hw_config_start hw_config_cback with_buffer dispatch on_start on_set_uart_clock finish
    free_evt abort close_fw evt_opcode
configuration_ends_example =
    configuration_ends nordic_config once replies 0 ready refl (omega arith) (omega arith)

-- The reply to HCI_READ_LOCAL_NAME, with zeros behind the name.
abbrev named : Evt
named = record {
  addr = 8192;
  bytes = 0x0E ∷ 252 ∷ 1 ∷ 0x14 ∷ 0x0C ∷ 0 ∷ (codes "BCM4339A0" ++ replicate 300 0);
}

abbrev asked : World
asked = record ready { hw = record ready.hw { state = read_local_name } }

hw_config_cback_total_example :
    (w' : World) × (hw_config_cback nordic_config bench named asked ≡ some w')
hw_config_cback_total_example = hw_config_cback_total nordic_config bench named asked (
  omega arith,
  record { end = 32; nul = refl; far = omega arith; space = omega arith; fits = inl refl },
)
