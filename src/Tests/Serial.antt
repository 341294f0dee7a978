-- ===== src/Tests/Serial.antt =====
-- The serial port.
use myir_bluetooth.Common.{true, some, none, ◌≡◌, ◌⊎◌, ◌+◌, refl, if◌then◌else◌}
use myir_bluetooth.Config.{nordic_config}
use myir_bluetooth.Ledger.{opens, closes}
use myir_bluetooth.Tests.Bench.{bench, ready}
use myir_bluetooth.Userial.Baud.{
  userial_to_tcio_baud, line_speed_to_userial_baud, rate, nearest, userial_to_tcio_baud-line_speed,
}
use myir_bluetooth.Userial.Opening.{
  accepted, IsBalanced, has_data_bits, has_parity, has_stop_bits, userial_vendor_open_result,
  userial_vendor_open-IsBalanced, userial_vendor_open_leaks,
}
use myir_bluetooth.Userial.Port.{
  userial_vendor_open, check_format, open_port, set_up, data_bits, parity, stop_bits,
}
use myir_bluetooth.Vendor.Interface.{userial_init_cfg}
use myir_bluetooth.World.{World}

abbrev opened : World
opened = (userial_vendor_open nordic_config bench userial_init_cfg ready).0

opened-IsBalanced : IsBalanced opened
opened-IsBalanced =
    userial_vendor_open-IsBalanced nordic_config bench userial_init_cfg ready refl
      (record { balance = refl })

userial_vendor_open_result_example :
    let r = userial_vendor_open nordic_config bench userial_init_cfg ready in
    (r.1 ≡ (if accepted userial_init_cfg then some 5 else none))
    × (r.0.serial.fd ≡ r.1)
    × ((accepted userial_init_cfg ≡ true) ⊎ (r.0.trace ≡ ready.trace))
userial_vendor_open_result_example =
    userial_vendor_open_result nordic_config bench userial_init_cfg ready

userial_vendor_open-IsBalanced_example : IsBalanced opened
userial_vendor_open-IsBalanced_example =
    userial_vendor_open-IsBalanced nordic_config bench userial_init_cfg ready refl
      (record { balance = refl })

abbrev reopened : World
reopened = (userial_vendor_open nordic_config bench userial_init_cfg opened).0

userial_vendor_open_leaks_example :
    (reopened.serial.fd ≡ some 5) × (opens reopened.trace ≡ closes reopened.trace + 2)
unfolding userial_vendor_open userial_to_tcio_baud check_format open_port set_up data_bits parity
    stop_bits has_data_bits has_parity has_stop_bits
userial_vendor_open_leaks_example =
    userial_vendor_open_leaks nordic_config bench userial_init_cfg opened 5 5 refl refl refl
      opened-IsBalanced

userial_to_tcio_baud-line_speed_example :
    let r = userial_to_tcio_baud (line_speed_to_userial_baud 1_000_000) in
    (r.0 ≡ true) × (rate r.1 ≡ nearest 1_000_000)
userial_to_tcio_baud-line_speed_example = userial_to_tcio_baud-line_speed 1_000_000
