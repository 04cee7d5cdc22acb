-- ===== src/Tests/ProjectTargets.antt =====
-- Targets of a GitLab instance at https://g.co/x.
use open_review.Base.{◌≡◌, refl, List, [], ◌∷◌, All, if◌then◌else◌}
use open_review.Base.Codes.{Codes, codes, starts_with}
use open_review.Utils.ProjectTargets.{
  Url, valid, normalize_gitlab_project_targets, segments, strip_slash, infer_gitlab_external_url,
  clean_base_url,
}
use open_review.Utils.ProjectTargets.Listed.{NoRepeat, IsListed, IsNamedBy, normalize-IsListed}

-- of the texts that occur here
abbrev urlparse : Codes → Url
unfolding starts_with
urlparse text =
    if starts_with (codes "https") text
    then record {
      scheme = codes "https";
      netloc = codes "g.co";
      path = if starts_with (codes "https://g.co/x/") text then codes "/x/a/b.git" else codes "/x";
    }
    else record { scheme = []; netloc = []; path = text }

abbrev values : List Codes
values = codes "a/b" ∷ codes " https://g.co/x/a/b.git" ∷ codes "/a/c/" ∷ []

abbrev projects : List Codes
projects = codes "a/b" ∷ codes "a/c" ∷ []

normalize-IsListed_example :
    NoRepeat urlparse (λ s. s) projects
    × All (IsListed urlparse (λ s. s) [] (codes "https://g.co/x") projects) values
    × All (IsNamedBy urlparse (λ s. s) [] (codes "https://g.co/x") values) projects
unfolding normalize_gitlab_project_targets starts_with segments strip_slash
normalize-IsListed_example =
    normalize-IsListed urlparse (λ s. s) [] (codes "https://g.co/x") values projects refl

inferred :
    infer_gitlab_external_url urlparse (λ s. s) values (codes "https://g.co/x/") []
    ≡ valid (codes "https://g.co/x")
unfolding infer_gitlab_external_url urlparse
inferred = refl

inferred_from_url :
    infer_gitlab_external_url urlparse
      (λ s. s)
      (codes "https://g.co/x/a/b.git" ∷ [])
      (codes "https://g.co/x")
      []
    ≡ valid (codes "https://g.co/x")
unfolding infer_gitlab_external_url starts_with clean_base_url
inferred_from_url = refl
