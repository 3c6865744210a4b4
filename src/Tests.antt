-- ===== src/Tests.antt =====
-- Concrete runs: each theorem with a hypothesis is applied where its hypotheses hold.
mod Samples
mod HealthRuns
mod TelemetryRuns
mod LockingRuns
mod AdmissionRuns
mod ConfigRuns
mod SyncRuns
mod ScrubRuns
mod PrefetchRuns
mod AuxiliaryRuns
mod EmbeddingRuns
mod IntegrityRuns
mod ThinkRuns
