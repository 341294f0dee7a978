-- ===== src/Tests/Exchange.antt =====
-- Whole exchanges and a session.
use myir_bluetooth.Common.{
  ◌+◌, ◌≤◌, ◌≡◌, true, false, none, some, List, [], ◌∷◌, ◌++◌, refl, arith, length,
}
use mathlib.Core.List.{reverse}
use myir_bluetooth.Hardware.Hci.{hci_reset, bare_command, evt_opcode}
use myir_bluetooth.Link.Download.{Reached, download_lem}
use myir_bluetooth.Link.Records.{contents, newest_first}
use myir_bluetooth.Link.Missing.{plain_configuration}
use myir_bluetooth.Link.Peers.{commands, deliver}
use myir_bluetooth.Platform.{Cback, Evt, xmit, open_file}
use myir_bluetooth.Tests.Bench.{cold, ready, value_or}
use myir_bluetooth.World.{World, dl_minidriver, start}
use myir_bluetooth.Hardware.Handler.{
  hw_config_start, hw_config_cback, with_buffer, dispatch, finish, free_evt, abort, has_null_bdaddr,
}
use myir_bluetooth.Hardware.Sco.{select_codec}
use myir_bluetooth.Hardware.Setup.{on_start, on_set_uart_clock, send, close_fw}
use myir_bluetooth.Ledger.{fw_reports, audio_reports, epilog_reports, takes, gives}
use myir_bluetooth.Link.Idle.{Ended}
use myir_bluetooth.Vendor.Closing.{epilog_commands, epilog_lem}
use myir_bluetooth.Vendor.Failing.{Failed, Stopped, deliver-Failed}
use myir_bluetooth.Vendor.Accounts.{outcomes}
use myir_bluetooth.Vendor.Outcomes.{outcomes-requests}
use myir_bluetooth.Vendor.Owners.{events, gives-le-takes}
use myir_bluetooth.Link.Audio.{Settled}
use myir_bluetooth.Link.Codec.{effective, audio_configuration}
use myir_bluetooth.Link.Configuration.{configuration}
use myir_bluetooth.Link.Reports.{Configured}
use myir_bluetooth.Link.Steps.{Waits}
use myir_bluetooth.Upio.Signal.{upio_init, upio_cleanup}
use myir_bluetooth.Userial.Port.{userial_vendor_init}
use myir_bluetooth.Vendor.Interface.{
  init, op, cleanup, done, value, fw_cfg, set_audio_state, epilog,
}
use myir_bluetooth.Vendor.Service.{Serves, fw_cfg_lem, fw_cfg_without_patch, set_audio_state_lem}
use myir_bluetooth.Vendor.Sessions.{
  Step, initialised, cleaned_up, asked, answered, Session, loaded, initialise, ask, answer,
  clean_up, requests,
}
use myir_bluetooth.Tests.Shelf.{
  own_config, records, shelf, bare_shelf, answer_event, controller, shelf-Willing,
  bare_shelf-Willing, records-IsFile, records-IsPatch, chip_file, records-Offers, bare-Lacks,
  address,
}

-- A download that has begun.
abbrev begun : World
begun = record ready {
  hw = record ready.hw { state = dl_minidriver; fw_fd = some 5 };
  trace = xmit 64558 4096 (bare_command 64558) Cback.hw_config true ∷ open_file [] (some 5) ∷ [];
}

begun-Waits : Waits dl_minidriver false (some 5) 64558 begun
begun-Waits = record { state = refl; flag = refl; file = refl; callbacks = refl; last = refl }

download_lem_example :
    Reached own_config shelf shelf-Willing controller 5
      (contents records)
      records-IsFile
      3
      (length (contents records))
      ((bare_command hci_reset).bytes ∷ newest_first records)
      start
      true
      none
      hci_reset
      begun
download_lem_example =
    download_lem own_config shelf shelf-Willing controller 5 (contents records) records-IsFile
      records true 64558 begun (omega arith) records-IsPatch (λ same. absurd (omega arith))
      begun-Waits refl

-- The session behind `init`.
abbrev opened : World
opened = (init own_config shelf true address cold).0

opened-Session : Session own_config shelf true (initialised ∷ []) opened
opened-Session = initialise [] cold address loaded

abbrev bare_opened : World
bare_opened = (init own_config bare_shelf true address cold).0

fw_cfg_lem_example :
    let sent = configuration own_config false opened.bd_addr records in
    Serves own_config shelf controller
      (initialised ∷ [])
      0
      fw_cfg
      opened
      (value 0)
      sent
      (Configured (fw_reports opened.trace) (reverse sent ++ commands opened.trace))
unfolding has_null_bdaddr
fw_cfg_lem_example =
    fw_cfg_lem own_config shelf shelf-Willing controller chip_file 5 records false
      (initialised ∷ []) opened 0 opened-Session (λ own. refl) records-Offers records-IsFile
      records-IsPatch

fw_cfg_without_patch_example :
    let sent = plain_configuration own_config bare_opened.bd_addr in
    Serves own_config bare_shelf controller
      (initialised ∷ [])
      0
      fw_cfg
      bare_opened
      (value 0)
      sent
      (Configured (fw_reports bare_opened.trace) (reverse sent ++ commands bare_opened.trace))
fw_cfg_without_patch_example =
    fw_cfg_without_patch own_config bare_shelf bare_shelf-Willing controller (initialised ∷ [])
      bare_opened 0 (initialise [] cold address loaded) bare-Lacks

set_audio_state_lem_example :
    let sent = audio_configuration own_config shelf 2 opened.sco in
    Serves own_config shelf controller
      (initialised ∷ [])
      0
      (set_audio_state 2)
      opened
      (value 0)
      sent
      (Settled
        (audio_reports opened.trace)
        (select_codec own_config shelf (effective shelf 2) opened.sco)
        (reverse sent ++ commands opened.trace))
set_audio_state_lem_example =
    set_audio_state_lem own_config shelf shelf-Willing controller (initialised ∷ []) opened 0 2
      opened-Session refl

-- A session with a request, the reply to its command, and its end.
abbrev asked_world : World
asked_world = hw_config_start own_config shelf opened

abbrev replied_world : World
replied_world =
    value_or (hw_config_cback own_config shelf (answer_event hci_reset) asked_world) cold

abbrev history : List Step
history = cleaned_up ∷ answered Cback.hw_config ∷ asked fw_cfg ∷ initialised ∷ []

closed-Session : Session own_config shelf false history (cleanup own_config shelf replied_world)
unfolding op deliver hw_config_start hw_config_cback with_buffer dispatch on_start on_set_uart_clock
    send finish free_evt abort evt_opcode init upio_init userial_vendor_init
closed-Session = clean_up _ replied_world (
    answer _ asked_world replied_world Cback.hw_config (answer_event hci_reset)
      (ask _ opened 0 fw_cfg (done asked_world) opened-Session refl) (omega arith) refl)

gives-le-takes_example :
    gives 4096 (cleanup own_config shelf replied_world).trace
    ≤ takes 4096 (cleanup own_config shelf replied_world).trace + events 4096 closed-Session
gives-le-takes_example = gives-le-takes own_config shelf 4096 false history _ closed-Session

-- The request for a configuration, and a reply to its command with status 1.
abbrev refusal : Evt
refusal = record { addr = 8192; bytes = 0x0E ∷ 4 ∷ 1 ∷ 3 ∷ 12 ∷ 1 ∷ [] }

asked-Session : Session own_config shelf true (asked fw_cfg ∷ initialised ∷ []) asked_world
unfolding op
asked-Session = ask _ opened 0 fw_cfg (done asked_world) opened-Session refl

deliver-Failed_example :
    (w' : World) × (deliver own_config shelf Cback.hw_config refusal asked_world ≡ some w')
    × Failed 8192 Cback.hw_config refusal asked_world w'
    × Stopped Cback.hw_config w'
    × Session own_config shelf true (answered Cback.hw_config ∷ asked fw_cfg ∷ initialised ∷ []) w'
unfolding evt_opcode hw_config_start init upio_init userial_vendor_init
deliver-Failed_example =
    deliver-Failed own_config shelf 8192 refusal 1 3075 refl refl (omega arith) Cback.hw_config _
      asked_world asked-Session (omega arith)

epilog_lem_example :
    Serves own_config shelf controller
      (initialised ∷ [])
      0
      epilog
      opened
      (value 0)
      (epilog_commands own_config)
      (Ended (epilog_reports opened.trace) (epilog_commands own_config ++ commands opened.trace))
epilog_lem_example =
    epilog_lem own_config shelf shelf-Willing controller (initialised ∷ []) opened 0 opened-Session

abbrev refused_world : World
refused_world = value_or (hw_config_cback own_config shelf refusal asked_world) cold

refused-Session :
    Session own_config shelf false
      (cleaned_up ∷ answered Cback.hw_config ∷ asked fw_cfg ∷ initialised ∷ [])
      (cleanup own_config shelf refused_world)
unfolding deliver hw_config_start hw_config_cback with_buffer dispatch on_start on_set_uart_clock
    send finish free_evt abort evt_opcode init upio_init userial_vendor_init
refused-Session =
    clean_up _ refused_world
      (answer _ asked_world refused_world Cback.hw_config refusal asked-Session (omega arith) refl)

outcomes-requests_example :
    outcomes (cleanup own_config shelf refused_world).trace
    ≡ requests (cleaned_up ∷ answered Cback.hw_config ∷ asked fw_cfg ∷ initialised ∷ [])
unfolding hw_config_start hw_config_cback with_buffer dispatch on_start on_set_uart_clock send
    finish free_evt abort evt_opcode init upio_init userial_vendor_init cleanup upio_cleanup
    close_fw
outcomes-requests_example =
    outcomes-requests own_config shelf shelf-Willing refl false _ _ refused-Session
      (tt, (tt, ((λ q. cc), (tt, tt)))) refl
