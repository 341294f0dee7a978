-- ===== src/Tests.antt =====
-- Each theorem applied at a concrete input, and runs of the code at fixed inputs.
mod Bench
mod Setup
mod Patches
mod Serial
mod Signals
mod Audio
mod Files
mod Shelf
mod Exchange
mod Messages
