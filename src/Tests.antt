-- ===== src/Tests.antt =====
-- Runs of the modelled operations on concrete inputs.
pub mod Records
pub mod StoreRuns
pub mod SqliteRuns
pub mod CacheRuns
pub mod OutputRuns
pub mod PresentationRuns
pub mod LogRuns
pub mod RegexRuns
pub mod PolicyRuns
