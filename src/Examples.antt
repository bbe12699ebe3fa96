-- ===== src/Examples.antt =====
-- Concrete runs of the code, and the theorems at them.
pub mod FireRuns
pub mod MissionRuns
pub mod NodeRuns
pub mod CommandRuns
pub mod EngineRuns
pub mod ElectionRuns
pub mod ProjectorRuns
pub mod RestartRuns
pub mod CommanderRuns
pub mod IntensityRuns
pub mod LeaseRuns
pub mod FieldRuns
pub mod SwarmRuns
pub mod BackupRuns
pub mod Uuids
