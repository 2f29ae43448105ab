-- ===== src/Examples.antt =====
-- Tests: the theorems at concrete inputs, and runs of the operations.
pub mod ProtocolRuns
pub mod ServerRuns
pub mod NetworkRuns
pub mod AuthRuns
pub mod StateRuns
pub mod LimitRuns
pub mod PoolRuns
pub mod PayloadRuns
pub mod BalancerRuns
pub mod LifecycleRuns
pub mod ProgramRuns
