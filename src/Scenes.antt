-- ===== src/Scenes.antt =====
-- agent/scenes: what the agent does for each kind of event.
pub mod AutoReview
pub mod Mention
