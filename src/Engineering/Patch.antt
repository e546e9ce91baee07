-- ===== src/Engineering/Patch.antt =====
-- engineering/patch/: unified diffs, their validation, and their application by `git apply`.
pub mod Applier
pub mod Validator
