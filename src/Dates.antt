-- ===== src/Dates.antt =====
-- Dates as texts, the ranges of parser jobs and the run dates of properties: src/common/utils/parser-job-date.util.ts and
-- src/common/services/run-date-calculator.service.ts.
pub mod Civil
pub mod Calendar
pub mod Text
pub mod ParserJob
pub mod Written
pub mod Ranges
pub mod RunDate
pub mod Search
pub mod Checked
pub mod Normalize
mod Examples
pub mod Order
