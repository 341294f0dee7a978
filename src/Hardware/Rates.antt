-- ===== src/Hardware/Rates.antt =====
-- The clock rates that the SCO configuration computes and keeps between its calls.
use myir_bluetooth.Common.{ℕ, ◌%◌, ◌≤◌, ◌≡◌, ◌≢◌, ◌⊎◌, arith}
use myir_bluetooth.Config.{Config}
use myir_bluetooth.Hardware.Sco.{invalid_sco_clock_rate, select_codec, sco_settings}
use myir_bluetooth.Platform.{Env}
use myir_bluetooth.World.{Sco}

module _ (c : Config) where
  -- The first configuration stores a wide band rate that is at least the narrow band rate and at
  -- least the configured one, and is one of the two.
  pub sco_settings_wide :
      (s : Sco)
      → s.wbs_clock_rate ≡ invalid_sco_clock_rate
      → let s' = sco_settings c s in
        (s'.clock_rate ≤ s'.wbs_clock_rate)
        × (c.sco_i2spcm_if_clock_rate4wbs % 256 ≤ s'.wbs_clock_rate)
        × ((s'.wbs_clock_rate ≡ s'.clock_rate)
            ⊎ (s'.wbs_clock_rate ≡ c.sco_i2spcm_if_clock_rate4wbs % 256))
  unfolding sco_settings
  sco_settings_wide s fresh = ground arith

  -- Configuring twice in a row is configuring once.
  pub sco_settings_twice : (s : Sco) → sco_settings c (sco_settings c s) ≡ sco_settings c s
  unfolding sco_settings
  sco_settings_twice s = ground arith

  -- Once the wide band rate is set: if the mSBC codec was selected last, and is not CVSD, then the
  -- next configuration keeps the wide band rate as its narrow band rate, on either bus.
  pub sco_settings_after_msbc :
      (e : Env) (s : Sco)
      → e.sco_codec_msbc ≢ e.sco_codec_cvsd
      → (sco_settings c (select_codec c e e.sco_codec_msbc s)).clock_rate ≡ s.wbs_clock_rate
  unfolding sco_settings select_codec
  sco_settings_after_msbc e s differ = ground arith

  -- Selecting a codec gives both interfaces the same rate, and it changes neither the bus nor the
  -- two rates that are kept; CVSD takes the narrow band rate with a sample rate of 8 kHz, coded 0.
  pub select_codec_lem :
      (e : Env) (codec : ℕ) (s : Sco)
      → let s' = select_codec c e codec s in
        let narrow = select_codec c e e.sco_codec_cvsd s in
        (s'.i2spcm_param.clock_rate ≡ s'.sco_param.clock_rate)
        × (s'.bus_i2s ≡ s.bus_i2s)
        × (s'.clock_rate ≡ s.clock_rate)
        × (s'.wbs_clock_rate ≡ s.wbs_clock_rate)
        × (narrow.sco_param.clock_rate ≡ s.clock_rate)
        × (narrow.i2spcm_param.sample_rate ≡ 0)
  unfolding select_codec
  select_codec_lem e codec s = ground arith
