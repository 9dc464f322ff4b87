-- ===== src/Tests.antt =====
-- Concrete inputs for the theorems of the library.
mod Targets
mod Jackpots
mod Sessions
mod Transcripts
mod Grinds
mod Kernels
mod Engines
mod Devices
mod Frames
