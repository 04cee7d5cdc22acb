-- ===== src/Scenes/AutoReview.antt =====
-- agent/scenes/auto_review: the review of a merge request.
pub mod Models
pub mod Findings
pub mod Dedupe
pub mod Finalize
pub mod Deterministic
