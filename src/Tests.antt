-- ===== src/Tests.antt =====
-- Concrete inputs of the theorems.
mod Table
mod RegistryRuns
mod LoaderRuns
mod DebuggerRuns
mod DlopenRuns
mod LinkRuns
mod HostRuns
mod QueryRuns
