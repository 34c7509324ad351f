-- ===== src/Settings.antt =====
-- The ordered lists of settings: src/modules/priority, billing-type, frequency, processor,
-- service-type and currency.
pub mod Service
pub mod Services
pub mod Positions
pub mod Reorder
pub mod Ranks
pub mod Changes
pub mod WellFormed
pub mod References
pub mod Kept
pub mod Remove
pub mod Schema
mod Examples
