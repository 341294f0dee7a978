-- ===== src/Vendor/Lifecycle.antt =====
-- The order in which the stack may call `init`, `op` and `cleanup`.
use myir_bluetooth.Common.{
  ℕ, Bool, true, false, none, some, ◌∷◌, ◌≡◌, ◌⊎◌, inl, inr, arith, replicate, ◌&&◌, if◌then◌else◌,
  Option-cases,
}
use myir_bluetooth.Config.{Config}
use myir_bluetooth.Hardware.Handler.{hw_config_start}
use myir_bluetooth.Hardware.Lpm.{hw_lpm_enable, hw_epilog_process}
use myir_bluetooth.Hardware.Sco.{hw_sco_config, hw_sco_i2spcm_config, sco_settings, set_sco}
use myir_bluetooth.Platform.{Env, timer_delete}
use myir_bluetooth.Upio.Signal.{upio_init, upio_cleanup}
use myir_bluetooth.Userial.Opening.{userial_vendor_open_result}
use myir_bluetooth.Userial.Port.{userial_vendor_init, userial_vendor_open}
use myir_bluetooth.Vendor.Interface.{
  value, minus, fw_cfg, sco_cfg, userial_open, lpm_set_mode, set_audio_state, epilog, init,
  hw_set_audio_state, open_channels, op, cleanup, fds, done, returns, userial_init_cfg,
}
use myir_bluetooth.World.{World, BdAddr, Action, idle}

-- The state after `hw_config_start` without callbacks.
abbrev pub hw_cleared : World → World
hw_cleared w = record w { hw = record w.hw { state = idle; fw_fd = none; f_set_baud_2 = false } }

module _ (c : Config) (e : Env) where
  -- `init` without callbacks returns -1 and changes nothing. With callbacks it returns 0, keeps
  -- them and the address, leaves no port open and no signal known, and calls nothing outside.
  pub init_lem :
      (bd : BdAddr) (w : World)
      → let r = init c e true bd w in
        (init c e false bd w ≡ (w, minus 1))
        × (r.1 ≡ value 0)
        × (r.0.cbacks ≡ true)
        × (r.0.bd_addr ≡ bd)
        × (r.0.serial.fd ≡ none)
        × (r.0.upio.wake_state ≡ Action.unknown)
        × (r.0.upio.mode_state ≡ Action.unknown)
        × (r.0.trace ≡ w.trace)
        × (r.0.hw ≡ w.hw)
  unfolding init upio_init userial_vendor_init
  init_lem bd w = ground arith

  -- Without callbacks, as after `cleanup` or before `init`, the operations on the controller's
  -- firmware, on low power mode, on the codec and on the end of the session call nothing outside.
  -- The first resets the control block and the others leave the state as it is; all return 0 but the codec's, which returns -1, or -256 if the audio configuration is not
  -- compiled in.
  pub op_without_stack :
      (fuel : ℕ) (mode : Bool) (codec : ℕ) (w : World)
      → w.cbacks ≡ false
      → (op c e fuel fw_cfg w ≡ some (done (hw_cleared w)))
        × (op c e fuel (lpm_set_mode mode) w ≡ some (done w))
        × (op c e fuel epilog w ≡ some (done w))
        × (op c e fuel (set_audio_state codec) w
            ≡ some (returns (minus (if c.sco_cfg_included then 1 else 256)) w))
  unfolding op hw_config_start hw_lpm_enable hw_epilog_process hw_set_audio_state
  op_without_stack fuel mode codec w off = ground arith

  -- Without callbacks, configuring SCO on an I2S bus calls through a NULL pointer, if it is compiled
  -- in; on a PCM bus it computes its settings and sends nothing.
  pub op_sco_cfg_without_stack :
      (fuel : ℕ) (w : World)
      → w.cbacks ≡ false
      → op c e fuel sco_cfg w ≡ (
          if c.sco_cfg_included
          then (if w.sco.bus_i2s then none else some (done (set_sco (sco_settings c w.sco) w)))
          else some (returns (minus 1) w))
  unfolding op hw_sco_config hw_sco_i2spcm_config sco_settings
  op_sco_cfg_without_stack fuel w off = ground arith

  -- After `cleanup` there are no callbacks, no timer where the proc nodes are compiled in, and
  -- nothing but the timer's state and the callbacks has changed. The serial port stays open, if
  -- it is.
  pub cleanup_lem :
      (w : World)
      → let w' = cleanup c e w in
        (w'.cbacks ≡ false)
        × ((c.bt_wake_via_proc ≡ false) ⊎ (w'.upio.timer_created ≡ false))
        × (w'.serial ≡ w.serial)
        × (w'.hw ≡ w.hw)
        × (w'.sco ≡ w.sco)
        × (w'.trace ≡ (
            if c.bt_wake_via_proc && w.upio.timer_created
            then timer_delete w.upio.timer_id ∷ w.trace
            else w.trace))
  unfolding cleanup upio_cleanup
  cleanup_lem w = ground arith

  -- Opening the port stores its descriptor in all `CH_MAX` slots and returns 1, or it returns 0
  -- and stores nothing; after a success the driver holds the descriptor that it stored.
  pub op_userial_open_lem :
      (fuel : ℕ) (w : World)
      → ((w' : World) × (op c e fuel userial_open w ≡ some (done w')))
        ⊎ ((w' : World) × (n : ℕ) × (w'.serial.fd ≡ some n)
            × (op c e fuel userial_open w
                ≡ some (record { world = w'; retval = value 1; out = fds (replicate e.ch_max n) })))
  unfolding op open_channels
  op_userial_open_lem fuel w = elim (Option-cases (userial_vendor_open c e userial_init_cfg w).1) [
    | inl refused ↦ inl ((userial_vendor_open c e userial_init_cfg w).0, ground arith)
    | inr (n, opened) ↦ inr (
      (userial_vendor_open c e userial_init_cfg w).0,
      n,
      ground (arith, userial_vendor_open_result c e userial_init_cfg w),
      ground arith,
    )
  ]
