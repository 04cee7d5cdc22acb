-- ===== src/Gitlab/Identity/Kept.antt =====
-- How long an identity is kept, and what stands in for it when GitLab fails.
use open_review.Base.{ℕ, ◌+◌, ◌<◌, ◌≡◌, refl, String, true, false, none, some, ◌==◌, leb, arith}
use open_review.Base.Result.{ok}
use open_review.Gitlab.Identity.{
  GitLabIdentity, BotIdentityResolution, cached, identity_from_payload, either_id, reset_cache,
  payload_from_identity, Cache, ttl, Answer, Fetched, fetched, failed, fetch_live_identity, settle,
  resolve_bot_identity,
}

-- an identity that a payload can stand for
pub record IsWhole (strip : String → String) (i : GitLabIdentity) : Type 0 where
  pub stripped : strip i.username ≡ i.username
  pub has_username : (i.username == "") ≡ false
  pub has_name : (i.name == "") ≡ false
  pub has_id : either_id i.user_id none ≡ i.user_id

payload-identity :
    (strip : String → String) (i : GitLabIdentity) (iso : String)
    → IsWhole strip i
    → identity_from_payload strip (payload_from_identity i iso) ≡ ok i
unfolding identity_from_payload payload_from_identity
payload-identity strip i iso h = rw (h.stripped, h.has_username, h.has_name, h.has_id) refl

leb_zero : (n : ℕ) → leb 0 n ≡ true
leb_zero n = ground arith

after_leb : (e now : ℕ) → now < e → leb e now ≡ false
after_leb e now h = ground arith

module _ {W : Type 0} (strip lower : String → String) (gitlab : W → Answer × W) where
  -- a fresh resolution is served from memory
  kept_lem :
      (now later : ℕ) (iso : String) (s : Cache) (w : W) (r : BotIdentityResolution)
      → s.resolution ≡ some r
      → now < s.expires_at
      → resolve_bot_identity strip lower gitlab false now later iso s w ≡ (r, s, w)
  unfolding resolve_bot_identity
  kept_lem now later iso s w r e lt = rw (after_leb s.expires_at now lt, e) refl

  settle_keeps :
      (o : Fetched) (later : ℕ) (iso : String) (s : Cache)
      → ((settle strip o later iso s).1.resolution ≡ some (settle strip o later iso s).0)
        × ((settle strip o later iso s).1.expires_at ≡ later + ttl)
  unfolding settle
  settle_keeps (fetched i) later iso s = (refl, refl)
  settle_keeps (failed m) later iso s = (refl, refl)

  -- For a minute after a forced resolution, whatever GitLab answered to it, `resolve_bot_identity` returns the same resolution, asks GitLab nothing and changes nothing.
  pub resolve-resolve :
      (now later now' later' : ℕ) (iso iso' : String) (s : Cache) (w : W)
      → now' < later + ttl
      → let first = resolve_bot_identity strip lower gitlab true now later iso s w in
        resolve_bot_identity strip lower gitlab false now' later' iso' first.1 first.2
        ≡ (first.0, first.1, first.2)
  unfolding resolve_bot_identity
  resolve-resolve now later now' later' iso iso' s w lt =
      let first = settle strip (fetch_live_identity strip (gitlab w).0) later iso s in
      let keeps = settle_keeps (fetch_live_identity strip (gitlab w).0) later iso s in
      kept_lem now' later' iso' first.1 (gitlab w).1 first.0 keeps.0 (rw keeps.1 lt)

  -- Where GitLab fails behind an identity that it gave before, `resolve_bot_identity` falls back to that identity, marked as cached and with the error, however much time has passed and also after the memory was reset.
  pub fallback-identity :
      (now later now' later' : ℕ) (iso iso' message : String) (i : GitLabIdentity) (s : Cache)
      (w : W)
      → fetch_live_identity strip (gitlab w).0 ≡ fetched i
      → IsWhole strip i
      → fetch_live_identity strip (gitlab (gitlab w).1).0 ≡ failed message
      → let first = resolve_bot_identity strip lower gitlab true now later iso s w in
        (resolve_bot_identity strip lower gitlab false now' later' iso'
          (reset_cache first.1)
          first.2).0
        ≡ record { identity = some i; source = cached; error = some message; fetched_at = some iso }
  unfolding resolve_bot_identity reset_cache
  fallback-identity now later now' later' iso iso' message i s w e h f =
      rw e (rw (leb_zero now') (rw f (rw (payload-identity strip i iso h) refl)))
