-- ===== src/Commands.antt =====
-- The four stages of the custom executor (cmd/fargate/commands/custom/). `Context` holds what the
-- commands read of `cli.Context`, and the runner package's global adapter.
pub mod Config
pub mod Custom
pub mod Prepare
pub mod Run
pub mod Cleanup
pub mod Lifecycle
pub mod Frame
pub mod Jobs
pub mod Overlap
