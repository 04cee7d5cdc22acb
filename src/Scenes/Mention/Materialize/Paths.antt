-- ===== src/Scenes/Mention/Materialize/Paths.antt =====
-- `_collect_changed_paths`: what is made of the lines of `git status --short`, which have two
-- letters for the index and the worktree, a space, and the path.
use open_review.Base.{ℕ, ◌≡◌, refl, false, [], ◌∷◌, is_empty, arith}
use open_review.Base.Codes.{Codes}
use open_review.Base.Spaces.{is_space, skip_spaces, rstrip, strip}
use open_review.Scenes.Mention.Materialize.{changed_path}

rstrip-cons : (x : ℕ) (s : Codes) → rstrip s ≡ s → is_empty s ≡ false → rstrip (x ∷ s) ≡ x ∷ s
unfolding rstrip
rstrip-cons x s h n = ground arith

-- a letter, a character, a space and a path, behind spaces that are stripped
strip-entry :
    (m x c : ℕ) (path : Codes)
    → is_space m ≡ false
    → rstrip (c ∷ path) ≡ c ∷ path
    → rstrip (m ∷ x ∷ b' ' ∷ c ∷ path) ≡ m ∷ x ∷ b' ' ∷ c ∷ path
strip-entry m x c path e t =
    rstrip-cons m (x ∷ b' ' ∷ c ∷ path)
      (rstrip-cons x (b' ' ∷ c ∷ path) (rstrip-cons b' ' (c ∷ path) t refl) refl) refl

strip_unstaged :
    (m c : ℕ) (path : Codes)
    → is_space m ≡ false
    → rstrip (c ∷ path) ≡ c ∷ path
    → strip (b' ' ∷ m ∷ b' ' ∷ c ∷ path) ≡ m ∷ b' ' ∷ c ∷ path
unfolding strip skip_spaces
strip_unstaged m c path e t =
    rw e (rstrip-cons m (b' ' ∷ c ∷ path) (rstrip-cons b' ' (c ∷ path) t refl) refl)

strip_staged :
    (m x c : ℕ) (path : Codes)
    → is_space m ≡ false
    → rstrip (c ∷ path) ≡ c ∷ path
    → strip (m ∷ x ∷ b' ' ∷ c ∷ path) ≡ m ∷ x ∷ b' ' ∷ c ∷ path
unfolding strip skip_spaces
strip_staged m x c path e t = rw e (strip-entry m x c path e t)

-- A path of two characters or more, which does not end in a space, is read as it is from the line of a file whose change is staged; from the line of a file whose change is not, which begins with a space, it is read without its first character.
pub changed_path_cut :
    (m x c d : ℕ) (path : Codes)
    → is_space m ≡ false
    → rstrip (c ∷ d ∷ path) ≡ c ∷ d ∷ path
    → (changed_path (m ∷ x ∷ b' ' ∷ c ∷ d ∷ path) ≡ (c ∷ d ∷ path) ∷ [])
      × (changed_path (b' ' ∷ m ∷ b' ' ∷ c ∷ d ∷ path) ≡ (d ∷ path) ∷ [])
unfolding changed_path
changed_path_cut m x c d path e t = (
  rw (strip_staged m x c (d ∷ path) e t) (ground arith),
  rw (strip_unstaged m c (d ∷ path) e t) (ground arith),
)
