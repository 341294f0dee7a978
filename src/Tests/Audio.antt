-- ===== src/Tests/Audio.antt =====
-- Audio, low power mode and the epilog.
use myir_bluetooth.Common.{
  ◌+◌, ◌*◌, ℕ, Bool, true, none, some, if◌then◌else◌, [], ◌∷◌, ◌≡◌, ◌⊎◌, inl, refl, arith,
}
use myir_bluetooth.Config.{nordic_config}
use myir_bluetooth.Hardware.Audio.{Answered, audio_reply-Answered}
use myir_bluetooth.Hardware.Hci.{evt_opcode}
use myir_bluetooth.Hardware.Lpm.{
  hw_lpm_get_idle_timeout, idle_unit, hw_lpm_enable, hw_epilog_process,
}
use myir_bluetooth.Hardware.Rates.{sco_settings_after_msbc}
use myir_bluetooth.Hardware.Sco.{
  sco_settings, select_codec, hw_set_sco_codec, hw_sco_i2spcm_cfg_cback,
}
use myir_bluetooth.Hardware.Sleep.{Submitted, hw_epilog_process_lem, hw_lpm_get_idle_timeout_exact}
use myir_bluetooth.Ledger.{once_at, takes, gives, sends, epilog_reports}
use myir_bluetooth.Platform.{Evt}
use myir_bluetooth.Tests.Bench.{bench, ready, value_or}
use myir_bluetooth.Upio.Timers.{bit}
use myir_bluetooth.World.{World, Sco}

abbrev wide : World × Bool
wide = hw_set_sco_codec nordic_config bench 2 ready

-- "Command complete" with status 0 for the I2S/PCM parameters.
abbrev settings_done : Evt
settings_done = record { addr = 8192; bytes = 0x0E ∷ 4 ∷ 1 ∷ 0x6D ∷ 0xFC ∷ 0 ∷ [] }

abbrev answered : World
answered = value_or (hw_sco_i2spcm_cfg_cback nordic_config bench settings_done ready) ready

audio_reply-Answered_example : Answered 8192 (once_at 8192 8192) ready answered
unfolding hw_sco_i2spcm_cfg_cback evt_opcode
audio_reply-Answered_example =
    audio_reply-Answered nordic_config bench 8192 settings_done ready refl (inl refl)

abbrev slept : World × Bool
slept = hw_lpm_enable nordic_config bench true ready

abbrev ended : World
ended = hw_epilog_process nordic_config bench ready

hw_epilog_process_lem_example :
    ((bench.alloc_answer ready.trace (bench.bt_hc_hdr_size + 3) ≡ none)
      × (epilog_reports ended.trace ≡ epilog_reports ready.trace + 1)
      × (sends ended.trace ≡ sends ready.trace)
      × (takes 4096 ended.trace ≡ takes 4096 ready.trace)
      × (gives 4096 ended.trace ≡ gives 4096 ready.trace))
    ⊎ ((addr : ℕ) × (ok : Bool) × (bench.alloc_answer ready.trace (bench.bt_hc_hdr_size + 3)
          ≡ some addr)
        × Submitted addr ok ended
        × (epilog_reports ended.trace ≡ epilog_reports ready.trace)
        × (sends ended.trace ≡ sends ready.trace + bit ok)
        × (takes 4096 ended.trace ≡ takes 4096 ready.trace + once_at addr 4096)
        × (gives 4096 ended.trace ≡ gives 4096 ready.trace + (if ok then once_at addr 4096 else 0)))
hw_epilog_process_lem_example = hw_epilog_process_lem nordic_config bench 4096 ready refl

hw_lpm_get_idle_timeout_exact_example :
    hw_lpm_get_idle_timeout nordic_config ready
    ≡ nordic_config.lpm.host_stack_idle_threshold
      * nordic_config.lpm_idle_timeout_multiple
      * idle_unit ready.hw.local_chip_name
hw_lpm_get_idle_timeout_exact_example =
    hw_lpm_get_idle_timeout_exact nordic_config ready (omega arith) (omega arith)

abbrev settled : Sco
settled = sco_settings nordic_config ready.sco

sco_settings_after_msbc_example :
    (sco_settings nordic_config (select_codec nordic_config bench 2 settled)).clock_rate
    ≡ settled.wbs_clock_rate
sco_settings_after_msbc_example = sco_settings_after_msbc nordic_config bench settled (ground arith)
