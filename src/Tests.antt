-- ===== src/Tests.antt =====
-- Concrete inputs on which the theorems' hypotheses hold, and runs of the definitions.
pub mod Receiving
pub mod Telegrams
pub mod Values
pub mod Lines
pub mod Packets
pub mod Averages
pub mod Whole
pub mod Library
pub mod Readings
