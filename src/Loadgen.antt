-- ===== src/Loadgen.antt =====
-- backend/loadgen/app.py: the generator of order requests.
pub mod Controller
pub mod Actions
pub mod Counters
pub mod Limit
pub mod Keys
