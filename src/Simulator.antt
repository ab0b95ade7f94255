-- ===== src/Simulator.antt =====
-- backend/downstream_sim/app.py: the simulator of the restaurants and couriers, and its kill switches.
pub mod Library
pub mod Config
pub mod Delay
pub mod Phases
pub mod KillSwitch
pub mod Endpoints
pub mod Bounds
pub mod Stages
pub mod Contract
pub mod Switching
