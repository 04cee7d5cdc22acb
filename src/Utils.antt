-- ===== src/Utils.antt =====
-- agent/utils: helpers without state of their own.
pub mod Diff
pub mod ProjectTargets
