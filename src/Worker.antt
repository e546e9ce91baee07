-- ===== src/Worker.antt =====
-- worker/: the persistent queue, the watcher, the scheduler and the daemon that drives them.
pub mod Models
pub mod Samples
pub mod Queue
pub mod Processed
pub mod Watcher
pub mod Config
pub mod Loader
pub mod Scheduler
pub mod Controller
pub mod Daemon
pub mod GitWorkflow
