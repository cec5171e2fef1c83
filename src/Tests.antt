-- ===== src/Tests.antt =====
-- Concrete books and orders, and the theorems at them. Integers stand in for decimals, and sorted
-- lists for treemaps.
pub mod Instances
pub mod Books
pub mod Windows
pub mod Orders
pub mod Engine
pub mod Services
pub mod Placing
pub mod Channels
pub mod Streams
pub mod Serving
pub mod Levels
