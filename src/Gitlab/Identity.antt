-- ===== src/Gitlab/Identity.antt =====
-- agent/gitlab/identity.py: the identity behind the configured token, kept for a minute in memory
-- and, for the time when GitLab cannot be reached, in the table of the configuration service.
-- Readings of the monotonic clock are natural numbers of microseconds; `str.strip` and `str.lower`
-- are parameters; GitLab is a function on the state outside. One call holds no lock between its
-- parts, and nothing else runs in between.
use open_review.Base.{
  ℕ, ◌+◌, String, Bool, true, false, not, ◌&&◌, Option, none, some, ◌==◌, leb, if◌then◌else◌,
}
use open_review.Base.Result.{Result, ok, err, PyError, runtime_error}
pub mod Kept

pub record GitLabIdentity : Type 0 where
  pub username : String
  pub name : String
  pub avatar_url : Option String
  pub user_id : Option ℕ
  pub state : Option String
  pub bot : Option Bool

pub data Source : Type 0 where
  live cached unavailable : Source

pub record BotIdentityResolution : Type 0 where
  pub identity : Option GitLabIdentity
  pub source : Source
  pub error : Option String
  pub fetched_at : Option String

-- A payload of GitLab or of the table; absent texts of `username` and `name` are empty here, as
-- `or ""` and `or username` read them.
pub record Payload : Type 0 where
  pub username : String
  pub name : String
  pub avatar_url : Option String
  pub user_id : Option ℕ
  pub id : Option ℕ
  pub state : Option String
  pub bot : Option Bool
  pub fetched_at : Option String

-- `payload.get("user_id") or payload.get("id")`
abbrev pub either_id : Option ℕ → Option ℕ → Option ℕ
either_id none id = id
either_id (some n) id = if leb n 0 then id else some n

unfoldable pub identity_from_payload : (String → String) → Payload → Result GitLabIdentity
identity_from_payload strip payload =
    if strip payload.username == ""
    then err runtime_error
    else ok (record {
      username = strip payload.username;
      name = if payload.name == "" then strip payload.username else payload.name;
      avatar_url = payload.avatar_url;
      user_id = either_id payload.user_id payload.id;
      state = payload.state;
      bot = payload.bot;
    })

unfoldable pub payload_from_identity : GitLabIdentity → String → Payload
payload_from_identity identity fetched_at = record {
  username = identity.username;
  name = identity.name;
  avatar_url = identity.avatar_url;
  user_id = identity.user_id;
  id = none;
  state = identity.state;
  bot = identity.bot;
  fetched_at = some fetched_at;
}

-- the globals of the module, and the row of the configuration service
pub record Cache : Type 0 where
  pub resolution : Option BotIdentityResolution
  pub expires_at : ℕ
  pub persisted : Option Payload

abbrev pub ttl : ℕ
ttl = 60000000

unfoldable pub reset_cache : Cache → Cache
reset_cache s = record s { resolution = none; expires_at = 0 }

unfoldable pub cache_resolution : BotIdentityResolution → ℕ → Cache → BotIdentityResolution × Cache
cache_resolution r now s = (r, record s { resolution = some r; expires_at = now + ttl })

unfoldable pub current_cached_resolution : ℕ → Cache → Option BotIdentityResolution
current_cached_resolution now s = if leb s.expires_at now then none else s.resolution

-- what a request of `/user` gives: a payload, or an exception with its text
pub data Answer : Type 0 where
  payload : Payload → Answer
  failure : String → Answer

-- the text of the RuntimeError for a payload without a name
abbrev pub no_username : String
no_username = "GitLab 未返回当前 token 对应的用户名。"

pub data Fetched : Type 0 where
  fetched : GitLabIdentity → Fetched
  failed : String → Fetched

abbrev named_or_failed : Result GitLabIdentity → Fetched
named_or_failed (ok identity) = fetched identity
named_or_failed (err e) = failed no_username

unfoldable pub fetch_live_identity : (String → String) → Answer → Fetched
unfolding identity_from_payload
fetch_live_identity strip (payload p) = named_or_failed (identity_from_payload strip p)
fetch_live_identity strip (failure message) = failed message

abbrev persisted_resolution : Payload → Result GitLabIdentity → Option BotIdentityResolution
persisted_resolution p (err e) = none
persisted_resolution p (ok i) =
    some (record { identity = some i; source = cached; error = none; fetched_at = p.fetched_at })

abbrev load_from : (String → String) → Option Payload → Option BotIdentityResolution
unfolding identity_from_payload
load_from strip none = none
load_from strip (some p) = persisted_resolution p (identity_from_payload strip p)

unfoldable pub load_persisted_identity : (String → String) → Cache → Option BotIdentityResolution
unfolding identity_from_payload
load_persisted_identity strip s = load_from strip s.persisted

abbrev fallback : String → Option BotIdentityResolution → BotIdentityResolution
fallback message none = record {
  identity = none;
  source = unavailable;
  error = some message;
  fetched_at = none;
}
fallback message (some r) = record {
  identity = r.identity;
  source = cached;
  error = some message;
  fetched_at = r.fetched_at;
}

-- behind the request, with the clock's second reading and the time as a text
unfoldable pub settle :
    (String → String) → Fetched → ℕ → String → Cache → BotIdentityResolution × Cache
unfolding load_persisted_identity cache_resolution payload_from_identity
settle strip (failed message) now iso s =
    cache_resolution (fallback message (load_persisted_identity strip s)) now s
settle strip (fetched i) now iso s =
    cache_resolution
      (record { identity = some i; source = live; error = none; fetched_at = some iso }) now
      (record s { persisted = some (payload_from_identity i iso) })

module _ {W : Type 0} (strip lower : String → String) (gitlab : W → Answer × W) where
  abbrev answer_or_fetch :
      Option BotIdentityResolution → ℕ → String → Cache → W → BotIdentityResolution × Cache × W
  unfolding settle fetch_live_identity
  answer_or_fetch (some r) later iso s w = (r, s, w)
  answer_or_fetch none later iso s w =
      let r = settle strip (fetch_live_identity strip (gitlab w).0) later iso s in
      (r.0, r.1, (gitlab w).1)

  unfoldable pub resolve_bot_identity :
      Bool → ℕ → ℕ → String → Cache → W → BotIdentityResolution × Cache × W
  unfolding settle fetch_live_identity current_cached_resolution
  resolve_bot_identity force_refresh now later iso s w =
      answer_or_fetch (if force_refresh then none else current_cached_resolution now s) later iso s
        w

  -- `get_bot_username`, of what is resolved
  abbrev pub username_of : Option GitLabIdentity → String
  username_of none = ""
  username_of (some i) = i.username

  unfoldable pub is_bot_username : String → BotIdentityResolution → Bool
  is_bot_username username resolved =
      not (username_of resolved.identity == "")
      && lower (strip username) == lower (username_of resolved.identity)
