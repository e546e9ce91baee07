-- ===== src/Runtime.antt =====
-- runtime/: the workflow stages and contexts, the registry of agents, sessions, shutdown, and the
-- orchestrator that takes a context from stage to stage.
pub mod Models
pub mod Registry
pub mod Settings
pub mod Sessions
pub mod Events
pub mod Lifecycle
pub mod Stages
pub mod Orchestrator
mod Tests
