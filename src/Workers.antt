-- ===== src/Workers.antt =====
-- worker/: what the observers of the matching logs make of them.
pub mod Makers
pub mod Ticks
pub mod Settlement
pub mod Executors
