-- ===== src/Scenes/Mention/Context/Skipped.antt =====
-- A run on notes that were answered is told to skip them.
use open_review.Base.{ℕ, ◌≤◌, ◌≡◌, List, All, Any, length}
use open_review.Base.Codes.{Codes}

-- the notes that are asked for, if there are any, are among those of a reply
abbrev pub AmongThose : List ℕ → List ℕ → Type 0
AmongThose asked ids = (1 ≤ length asked) × All (λ m. Any (λ k. k ≡ m) ids) asked
