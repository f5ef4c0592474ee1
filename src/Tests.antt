-- ===== src/Tests.antt =====
-- Runs of the model on concrete inputs, and the theorems at such inputs.
mod WatchTests
mod SchedulerTests
mod ApiTests
mod SecurityTests
mod StorageTests
mod LockTests
mod BlueprintTests
mod ActionTests
mod ExecutorTests
mod DispatcherTests
mod MiddlewareTests
mod EngineTests
mod ServiceTests
mod BranchTests
mod DispatchTests
