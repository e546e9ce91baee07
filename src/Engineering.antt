-- ===== src/Engineering.antt =====
-- engineering/: understanding an issue, asking for a patch, validating and applying it.
pub mod Models
pub mod Patch
pub mod Services
pub mod Pipeline
