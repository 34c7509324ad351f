-- ===== src/Parallel.antt =====
-- src/common/utils/parallel-processor.util.ts
pub mod Processor
pub mod Chunks
pub mod Results
mod Examples
