-- ===== src/Extern.antt =====
-- What the program takes from other packages, as interfaces: exact decimals
-- (github.com/shopspring/decimal) and ordered maps (github.com/emirpasic/gods/maps/treemap).
pub mod Decimal
pub mod TreeMap
