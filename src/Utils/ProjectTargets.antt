-- ===== src/Utils/ProjectTargets.antt =====
-- agent/utils/gitlab_project_targets.py: project paths and URLs of one GitLab instance. Texts are
-- code points; `urlparse` and `str.lower` are parameters.
use open_review.Base.{
  ℕ, zero, suc, ◌≤◌, ◌≡◌, Bool, true, false, not, ◌&&◌, ◌||◌, Option, none, some, List, [], ◌∷◌,
  ◌++◌, map, eqb, ltb, length, take, drop, if◌then◌else◌, is_empty, filter,
}
use open_review.Base.Options.{◌>>=◌}
use open_review.Base.Codes.{Codes, codes, starts_with}
use open_review.Base.Spaces.{strip, split, join}
use open_review.Gitlab.Markers.{same_codes}
pub mod Listed

-- what the code reads of `urllib.parse.urlparse(url)`
pub record Url : Type 0 where
  pub scheme : Codes
  pub netloc : Codes
  pub path : Codes

-- a value, or a ValueError with its text
pub data Checked (A : Type 0) : Type 0 where
  valid : A → Checked A
  invalid : Codes → Checked A

-- `s.lstrip("/")`, `s.rstrip("/")` and `s.strip("/")`
unfoldable pub lstrip_slash : Codes → Codes
lstrip_slash [] = []
lstrip_slash (c ∷ s) = let rest = lstrip_slash s in if eqb c b'/' then rest else c ∷ s

unfoldable pub rstrip_slash : Codes → Codes
rstrip_slash [] = []
rstrip_slash (c ∷ s) =
    let rest = rstrip_slash s in if eqb c b'/' && is_empty rest then [] else c ∷ rest

unfoldable pub strip_slash : Codes → Codes
unfolding lstrip_slash rstrip_slash
strip_slash s = rstrip_slash (lstrip_slash s)

unfoldable pub clean_url : Codes → Codes
unfolding strip rstrip_slash
clean_url value = rstrip_slash (strip value)

abbrev pub is_given : Codes → Bool
is_given s = not (is_empty s)

-- the segments of a path that are not empty
unfoldable pub segments : Codes → List Codes
unfolding split filter
segments path = filter is_given (split b'/' path)

abbrev pub not_empty_text : Codes
not_empty_text = codes "GitLab 项目不能为空。"

abbrev pub only_instance_text : Codes
only_instance_text = codes "只支持当前 GitLab 实例的 HTTPS 仓库 URL。"

abbrev pub dot_git : Codes
dot_git = codes ".git"

-- `s[:-len(".git")]` where `s.endswith(".git")`
unfoldable pub git_stem : Codes → Option Codes
git_stem [] = none
git_stem (c ∷ s) =
    let rest = git_stem s in
    if same_codes (c ∷ s) dot_git then some [] else (do stem ← rest; some (c ∷ stem))

abbrev pub stem_or_same : Codes → Option Codes → Option Codes
stem_or_same s none = some s
stem_or_same s (some []) = none
stem_or_same s (some (c ∷ stem)) = some (c ∷ stem)

-- the parts with the last one less its `.git`; none, if nothing is left of it
unfoldable pub stem_last : List Codes → Option (List Codes)
unfolding git_stem
stem_last [] = none
stem_last (s ∷ []) = do t ← stem_or_same s (git_stem s); some (t ∷ [])
stem_last (s ∷ t ∷ rest) = do more ← stem_last (t ∷ rest); some (s ∷ more)

abbrev pub has_dash : List Codes → Bool
has_dash [] = false
has_dash (s ∷ ss) = same_codes s (codes "-") || has_dash ss

abbrev pub checked_parts : Option (List Codes) → Checked Codes
checked_parts none = invalid not_empty_text
checked_parts (some parts) =
    if ltb (length parts) 2
    then invalid (codes "只支持 GitLab project path 或当前实例的 HTTPS 仓库 URL。")
    else if has_dash parts
    then invalid (codes "只支持 GitLab 项目根 URL，不支持 MR、Issue 或 Wiki 链接。")
    else valid (join (b'/' ∷ []) parts)

unfoldable pub normalize_project_segments : List Codes → Checked Codes
unfolding strip filter stem_last join
normalize_project_segments parts = checked_parts (stem_last (filter is_given (map strip parts)))

abbrev pub same_segments : List Codes → List Codes → Bool
same_segments [] [] = true
same_segments [] (t ∷ ts) = false
same_segments (s ∷ ss) [] = false
same_segments (s ∷ ss) (t ∷ ts) = same_codes s t && same_segments ss ts

abbrev pub Base : Type 0
Base = Codes × List Codes

abbrev pub given_bases : Option Base → Option Base → List Base
given_bases none none = []
given_bases none (some b) = b ∷ []
given_bases (some a) none = a ∷ []
given_bases (some a) (some b) = a ∷ b ∷ []

abbrev pub is_longer : List Codes → Option (List Codes) → Bool
is_longer allowed none = true
is_longer allowed (some prefix) = ltb (length prefix) (length allowed)

abbrev pub after_base : Codes → List Codes → Option (List Codes) → Base → Option (List Codes)
after_base host path matched (allowed_host, allowed) =
    if same_codes host allowed_host
      && same_segments (take (length allowed) path) allowed
      && is_longer allowed matched
    then some allowed
    else matched

-- the longest base that the host and the path have
unfoldable pub matched_prefix :
    Codes → List Codes → Option (List Codes) → List Base → Option (List Codes)
matched_prefix host path matched [] = matched
matched_prefix host path matched (base ∷ bases) =
    matched_prefix host path (after_base host path matched base) bases

abbrev pub project_in : List Codes → Option (List Codes) → Checked Codes
project_in path none = invalid only_instance_text
project_in path (some prefix) = normalize_project_segments (drop (length prefix) path)

module _ (urlparse : Codes → Url) (lower : Codes → Codes) where
  abbrev pub base_of : Url → Option Base
  base_of u =
      if is_empty u.scheme || is_empty u.netloc
      then none
      else some (lower u.netloc, segments u.path)

  unfoldable pub clean_base_url : Codes → Option Base
  unfolding clean_url segments
  clean_base_url value =
      let raw = clean_url value in if is_empty raw then none else base_of (urlparse raw)

  abbrev pub parse_url : Url → Codes → Codes → Checked Codes
  parse_url u api_url external_url =
      if not (same_codes u.scheme (codes "http") || same_codes u.scheme (codes "https"))
        || is_empty u.netloc
      then invalid only_instance_text
      else project_in (segments u.path) (
          matched_prefix (lower u.netloc) (segments u.path) none
            (given_bases (clean_base_url api_url) (clean_base_url external_url)))

  abbrev pub parse_raw : Codes → Codes → Codes → Checked Codes
  parse_raw raw api_url external_url =
      if is_empty raw
      then invalid not_empty_text
      else if starts_with (codes "git@") raw
      then invalid (codes "暂不支持 SSH 仓库地址；请使用当前 GitLab 实例的 HTTPS 地址。")
      else if is_given (urlparse raw).scheme || is_given (urlparse raw).netloc
      then parse_url (urlparse raw) api_url external_url
      else normalize_project_segments (split b'/' (strip_slash raw))

  unfoldable pub parse_gitlab_project_target : Codes → Codes → Codes → Checked Codes
  unfolding clean_base_url matched_prefix normalize_project_segments
  parse_gitlab_project_target value api_url external_url =
      parse_raw (strip value) api_url external_url

  abbrev pub has : Codes → List Codes → Bool
  has k [] = false
  has k (j ∷ s) = same_codes j k || has k s

  abbrev pub put_new : Codes → List Codes → List Codes
  put_new path normalized = if has path normalized then normalized else normalized ++ path ∷ []

  abbrev pub go_on :
      Checked Codes → List Codes → (List Codes → Checked (List Codes)) → Checked (List Codes)
  go_on (invalid text) normalized rest = invalid text
  go_on (valid path) normalized rest = rest (put_new path normalized)

  unfoldable pub normalize_from : Codes → Codes → List Codes → List Codes → Checked (List Codes)
  unfolding parse_gitlab_project_target
  normalize_from api_url external_url normalized [] = valid normalized
  normalize_from api_url external_url normalized (item ∷ items) =
      go_on (parse_gitlab_project_target item api_url external_url) normalized
        (λ more. normalize_from api_url external_url more items)

  unfoldable pub normalize_gitlab_project_targets :
      List Codes → Codes → Codes → Checked (List Codes)
  unfolding normalize_from
  normalize_gitlab_project_targets values api_url external_url =
      normalize_from api_url external_url [] values

module _ (urlparse : Codes → Url) (lower : Codes → Codes) where
  abbrev after_candidate : List Codes → List Codes → Option Base → List Codes
  after_candidate path matched none = matched
  after_candidate path matched (some (host, allowed)) =
      if same_segments (take (length allowed) path) allowed && ltb (length matched) (length allowed)
      then allowed
      else matched

  -- the longest path of a configured URL that the path begins with
  unfoldable pub longest_prefix : List Codes → List Codes → List Codes → List Codes
  unfolding clean_base_url
  longest_prefix path matched [] = matched
  longest_prefix path matched (url ∷ urls) =
      longest_prefix path (after_candidate path matched (clean_base_url urlparse lower url)) urls

  abbrev suffix_of : List Codes → Codes
  suffix_of [] = []
  suffix_of (s ∷ ss) = b'/' ∷ join (b'/' ∷ []) (s ∷ ss)

  abbrev first_or_empty : List Codes → Codes
  first_or_empty [] = []
  first_or_empty (s ∷ ss) = s

  abbrev infer_from : Url → List Codes → Checked Codes
  infer_from u current =
      if not (is_given u.scheme && is_given u.netloc)
      then (if is_empty (first_or_empty current)
          then invalid (codes "首次配置 GitLab 项目时，请填写当前 GitLab 实例的 HTTPS 仓库 URL。")
          else valid (first_or_empty current))
      else valid (
          u.scheme
          ++ (codes "://" ++ (u.netloc ++ suffix_of (longest_prefix (segments u.path) [] current))))

  abbrev infer_first : List Codes → List Codes → Checked Codes
  infer_first [] current = valid (first_or_empty current)
  infer_first (first ∷ others) current = infer_from (urlparse first) current

  unfoldable pub infer_gitlab_external_url : List Codes → Codes → Codes → Checked Codes
  unfolding clean_url strip segments longest_prefix join filter
  infer_gitlab_external_url values current_external_url current_api_url =
      infer_first (filter is_given (map strip values))
        (filter is_given (clean_url current_external_url ∷ clean_url current_api_url ∷ []))

unfoldable pub build_gitlab_project_clone_url : Codes → Codes → Codes
unfolding clean_url strip strip_slash
build_gitlab_project_clone_url project_path external_url =
    let base = clean_url external_url in
    let project = strip_slash (strip project_path) in
    if is_empty base || is_empty project then project else base ++ (b'/' ∷ (project ++ dot_git))

unfoldable pub build_gitlab_merge_request_url : Codes → Codes → Codes → Codes
unfolding clean_url strip strip_slash
build_gitlab_merge_request_url project_path mr_iid external_url =
    let base = clean_url external_url in
    let project = strip_slash (strip project_path) in
    let mr = strip mr_iid in
    if is_empty base || is_empty project || is_empty mr
    then []
    else base ++ (b'/' ∷ (project ++ (codes "/-/merge_requests/" ++ mr)))
