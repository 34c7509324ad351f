-- ===== src/Jobs.antt =====
-- Parser jobs of properties, made and completed: bulkCreateParserJobs and updateHistoricalAndRunDate of
-- src/modules/external-api/external-recurring-jobs.service.ts.
pub mod Window
pub mod Service
pub mod Accounts
pub mod Windows
mod Examples
pub mod Complete
pub mod Completed
