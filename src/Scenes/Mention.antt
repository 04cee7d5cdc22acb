-- ===== src/Scenes/Mention.antt =====
-- agent/scenes/mention: the answers to notes that mention the bot.
pub mod Models
pub mod Skip
pub mod Context
pub mod Effects
pub mod Materialize
pub mod Loop
pub mod Publish
pub mod Run
