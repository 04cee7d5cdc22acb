-- ===== src/Tests/Identity.antt =====
-- GitLab answers once, and is then out of reach.
use open_review.Base.{ℕ, ◌+◌, ◌≡◌, refl, true, false, String, some, none, eqb, if◌then◌else◌}
use open_review.Gitlab.Identity.{
  GitLabIdentity, cached, Answer, payload, failure, Cache, reset_cache, resolve_bot_identity,
  fetch_live_identity,
}
use open_review.Gitlab.Identity.Kept.{fallback-identity}

abbrev same : String → String
same s = s

abbrev bot : GitLabIdentity
bot = record {
  username = "review-bot";
  name = "Review Bot";
  avatar_url = none;
  user_id = some 9;
  state = some "active";
  bot = some true;
}

-- the state counts the requests
abbrev once : ℕ → Answer × ℕ
once n = (
  if eqb n 0
      then payload (record {
        username = "review-bot";
        name = "Review Bot";
        avatar_url = none;
        user_id = none;
        id = some 9;
        state = some "active";
        bot = some true;
        fetched_at = none;
      })
      else failure "timeout",
  n + 1,
)

abbrev empty : Cache
empty = record { resolution = none; expires_at = 0; persisted = none }

fallback-identity_example :
    let first = resolve_bot_identity same same once true 5 7 "t0" empty 0 in
    (resolve_bot_identity same same once false 90000000 90000000 "t1"
      (reset_cache first.1)
      first.2).0
    ≡ record {
      identity = some bot;
      source = cached;
      error = some "timeout";
      fetched_at = some "t0";
    }
unfolding fetch_live_identity
fallback-identity_example =
    fallback-identity same same once 5 7 90000000 90000000 "t0" "t1" "timeout" bot empty 0 refl
      (record { stripped = refl; has_username = refl; has_name = refl; has_id = refl }) refl
