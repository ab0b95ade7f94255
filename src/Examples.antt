-- ===== src/Examples.antt =====
-- The theorems at concrete inputs: two orders that are placed, claimed, taken on and cancelled.
pub mod Samples
mod Pipeline
mod Tasks
mod Intake
mod Simulator
mod Loadgen
mod Loops
mod Http
mod Dashboard
