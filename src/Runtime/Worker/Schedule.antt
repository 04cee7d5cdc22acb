-- ===== src/Runtime/Worker/Schedule.antt =====
-- agent/runtime/worker.py: the events that the worker loop enqueues by the calendar, over any
-- `RuntimeStore`. Dates are numbered days, and `date.isoformat()` and
-- `datetime.fromisoformat(...).date()` are the parameters `iso` and `day_of`.
pub mod Laws
pub mod Interval
use Prim.Native.String.{◌++◌ as str_append}
use Prim.Native.Char.{code}
use open_review.Base.{
  ℕ, ◌+◌, ◌-◌, ◌<◌, ◌≤◌, ◌≡◌, String, Bool, true, false, not, ◌&&◌, ◌||◌, Option, none, some, List,
  [], ◌∷◌, ◌==◌, ltb, leb, eqb, if◌then◌else◌,
}
use open_review.Base.Options.{◌>>=◌}
use open_review.Base.Dict
use open_review.Base.Dict.{Dict}
use open_review.Base.Result.{Result, ok, err, PyError, value_error}
use open_review.Runtime.Json.{Json, str, arr, items, IntOfText}
use open_review.Runtime.Models.{
  EventEnvelope, EventType, daily_audit, agent_self_evolution, actor_key,
}
use open_review.Runtime.World.{World}
use open_review.Runtime.RuntimeStore.{RuntimeStore}
use open_review.Runtime.Queue.{Service, wake}

pub record Time : Type 0 where
  pub hour : ℕ
  pub minute : ℕ

-- `value.split(":", 1)`, where it has two parts
unfoldable split_colon : String → Option (String × String)
split_colon String.[] = none
split_colon (String.◌∷◌ c s) =
    let rest = (do (a, b) ← split_colon s; some (String.◌∷◌ c a, b)) in
    if eqb (code c) b':' then some (String.[], s) else rest

-- `time(hour=..., minute=...)`; out of range it raises
abbrev checked_time : ℕ → ℕ → Option Time
checked_time h m = if ltb h 24 && ltb m 60 then some (record { hour = h; minute = m }) else none

abbrev or_two : Option Time → Time
or_two none = record { hour = 2; minute = 0 }
or_two (some t) = t

-- any exception falls back to 02:00
unfoldable pub parse_daily_start_time : IntOfText → String → Time
unfolding split_colon
parse_daily_start_time int_of value = or_two (do
  (hour_raw, minute_raw) ← split_colon (if value == "" then "02:00" else value)
  hour ← int_of hour_raw
  minute ← int_of minute_raw
  checked_time hour minute)

-- What the scheduling reads besides its store: the configuration, the local time and GitLab.
pub record Calendar : Type 0 where
  pub int_of_text : IntOfText
  pub strip : String → String
  -- `str(item)` of the items of GITLAB_TARGET_PROJECTS
  pub target_projects : List String
  -- the truth of DAILY_AUDIT_ENABLED, and `str(DAILY_AUDIT_START_TIME_LOCAL or "02:00")`
  pub daily_audit_enabled : String → Bool
  pub daily_start_time : String → String
  -- `get_project_default_branch`; `none` where it raises
  pub default_branch : String → Option String
  pub self_evolution_enabled : Bool
  pub self_evolution_time : String
  -- `int(SELF_EVOLUTION_INTERVAL_DAYS or 1)`; `none` where it raises
  pub interval_setting : Option ℕ
  pub iso : ℕ → String
  pub day_of : String → Option ℕ
  -- the time in the zone of the deployment, without seconds, and as a text
  pub today : ℕ
  pub clock : Time
  pub now_text : String

unfoldable pub configured_target_projects : (String → String) → List String → List String
configured_target_projects strip [] = []
configured_target_projects strip (item ∷ rest) =
    let others = configured_target_projects strip rest in
    if strip item == "" then others else strip item ∷ others

-- `a < b` of two times
unfoldable pub before : Time → Time → Bool
before a b = ltb a.hour b.hour || eqb a.hour b.hour && ltb a.minute b.minute

-- `max(int(SELF_EVOLUTION_INTERVAL_DAYS or 1), 1)`
abbrev pub interval_days : Option ℕ → ℕ
interval_days none = 1
interval_days (some n) = if ltb n 1 then 1 else n

abbrev or_main : Option String → String
or_main none = "main"
or_main (some b) = b

abbrev or_blank : Option String → String
or_blank none = ""
or_blank (some d) = d

module _ (c : Calendar) where
  unfoldable pub daily_event : String → EventEnvelope
  daily_event project = record {
    event_id = str_append "daily_audit:" (str_append project (str_append ":" (c.iso c.today)));
    event_type = daily_audit;
    project_id = project;
    mr_iid = none;
    source_branch = or_main (c.default_branch project);
    target_branch = or_main (c.default_branch project);
    title = str_append "Daily audit " (c.iso c.today);
    head_sha = none;
    note_id = none;
    discussion_id = none;
    note_body = none;
    note_author = none;
    received_at = c.now_text;
    payload =
        ("kind", str "daily_audit")
        ∷ ("default_branch", str (or_main (c.default_branch project)))
        ∷ ("scheduled_date", str (c.iso c.today))
        ∷ [];
  }

  unfoldable pub evolution_event : String → EventEnvelope
  evolution_event project = record {
    event_id =
        str_append "agent_self_evolution:" (str_append project (str_append ":" (c.iso c.today)));
    event_type = agent_self_evolution;
    project_id = project;
    mr_iid = none;
    source_branch = or_main (c.default_branch project);
    target_branch = or_main (c.default_branch project);
    title = str_append "Agent self evolution " (c.iso c.today);
    head_sha = none;
    note_id = none;
    discussion_id = none;
    note_body = none;
    note_author = none;
    received_at = c.now_text;
    payload =
        ("kind", str "agent_self_evolution")
        ∷ ("agent_type", str "all")
        ∷ ("agent_types", arr (items (str "mention" ∷ str "auto_review" ∷ str "daily_audit" ∷ [])))
        ∷ ("default_branch", str (or_main (c.default_branch project)))
        ∷ ("scheduled_date", str (c.iso c.today))
        ∷ ("trigger_source", str "scheduled")
        ∷ [];
  }

  unfoldable pub daily_due : String → Bool
  unfolding parse_daily_start_time before
  daily_due project =
      c.daily_audit_enabled project
      && not (before c.clock (parse_daily_start_time c.int_of_text (c.daily_start_time project)))

  module _ (w : World) (store : RuntimeStore w) where
    unfoldable pub schedule_daily : String → ℕ × Service w store → ℕ × Service w store
    unfolding daily_event daily_due wake
    schedule_daily project (scheduled, s) =
        let event = daily_event project in
        let r = store.append_event event s.state in
        let appended = record s { state = r.1 } in
        if not (daily_due project)
        then (scheduled, s)
        else if not r.0
        then (scheduled, appended)
        else (scheduled + 1, wake w store (actor_key event) appended)

    unfoldable schedule_all_daily : List String → ℕ × Service w store → ℕ × Service w store
    unfolding schedule_daily
    schedule_all_daily [] r = r
    schedule_all_daily (project ∷ projects) r =
        schedule_all_daily projects (schedule_daily project r)

    unfoldable pub maybe_enqueue_daily_audit_events : Service w store → ℕ × Service w store
    unfolding schedule_all_daily configured_target_projects
    maybe_enqueue_daily_audit_events s =
        schedule_all_daily (configured_target_projects c.strip c.target_projects) (0, s)

    -- The state of the other loop: the service, and the table self_evolution_schedule_state of the
    -- control plane, which has the last scheduled date of each project.
    abbrev pub Evolution : Type 0
    Evolution = Service w store × Dict String

    unfoldable pub last_scheduled_date : Dict String → String → String
    unfolding Dict.get
    last_scheduled_date table project = c.strip (or_blank (Dict.get table project))

    abbrev waits : Option ℕ → Result Bool
    waits none = err value_error
    waits (some day) = ok (ltb (c.today - day) (interval_days c.interval_setting))

    -- what an entry of the table says: an error, or whether the project has to wait
    unfoldable pub must_wait : String → Result Bool
    must_wait date = if date == "" then ok false else waits (c.day_of date)

    unfoldable pub evolve_project : String → Evolution → Bool × Evolution
    unfolding evolution_event wake Dict.put
    evolve_project project (s, table) =
        let event = evolution_event project in
        let r = store.append_event event s.state in
        let appended = record s { state = r.1 } in
        if not r.0 then (false, (appended, table)) else (
          true,
          (wake w store (actor_key event) appended, Dict.put table project (c.iso c.today)),
        )

    -- the rest of the loop: an error ends it, a project that waits is passed over
    abbrev pub go_on :
        Result Bool → Evolution → Result ℕ × Evolution → Result ℕ × Evolution → Result ℕ × Evolution
    go_on (err x) e skipped done = (err x, e)
    go_on (ok true) e skipped done = skipped
    go_on (ok false) e skipped done = done

    unfoldable pub evolve_all : List String → ℕ → Evolution → Result ℕ × Evolution
    unfolding evolve_project must_wait last_scheduled_date
    evolve_all [] n e = (ok n, e)
    evolve_all (project ∷ projects) n e =
        let r = evolve_project project e in
        let skipped = evolve_all projects n e in
        let done = evolve_all projects (if r.0 then n + 1 else n) r.1 in
        go_on (must_wait (last_scheduled_date e.1 project)) e skipped done

    unfoldable pub maybe_enqueue_agent_self_evolution_events : Evolution → Result ℕ × Evolution
    unfolding evolve_all configured_target_projects before parse_daily_start_time
    maybe_enqueue_agent_self_evolution_events e =
        let time = parse_daily_start_time c.int_of_text c.self_evolution_time in
        if not c.self_evolution_enabled || before c.clock time
        then (ok 0, e)
        else evolve_all (configured_target_projects c.strip c.target_projects) 0 e
