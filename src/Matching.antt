-- ===== src/Matching.antt =====
-- The matching engine of matching/.
pub mod Window
pub mod Log
pub mod Depth
pub mod Book
pub mod Match
pub mod Apply
pub mod Walk
pub mod Engine
pub mod Reader
