-- ===== src/Gitlab.antt =====
-- agent/gitlab: what is asked of GitLab, and what is kept of its answers.
pub mod Markers
pub mod Comments
pub mod Identity
