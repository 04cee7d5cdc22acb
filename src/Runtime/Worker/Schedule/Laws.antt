-- ===== src/Runtime/Worker/Schedule/Laws.antt =====
-- The calendar's events: times in range, no actor left asleep, and the interval of self evolution.
use open_review.Base.{
  ℕ, ◌+◌, ◌<◌, inl, inr, String, Bool, true, false, not, ◌||◌, List, [], ◌∷◌, if◌then◌else◌,
  Bool-cases, arith,
}
use open_review.Base.Dict.{Dict}
use open_review.Base.Result.{Result, ok, err}
use open_review.Runtime.Json.{IntOfText}
use open_review.Runtime.World.{World}
use open_review.Runtime.RuntimeStore.{RuntimeStore}
use open_review.Runtime.Queue.{Service, enqueue_gitlab_event}
use open_review.Runtime.Queue.Wake.{IsAwake, enqueue-IsAwake}
use open_review.Runtime.Worker.Schedule.{
  parse_daily_start_time, Calendar, configured_target_projects, before, daily_event, daily_due,
  evolution_event, schedule_daily, schedule_all_daily, maybe_enqueue_daily_audit_events, Evolution,
  last_scheduled_date, must_wait, evolve_project, evolve_all, go_on,
  maybe_enqueue_agent_self_evolution_events,
}

-- Whatever the setting says, `_parse_daily_start_time` yields a time of the day.
pub parse-time_range :
    (int_of : IntOfText) (value : String)
    → ((parse_daily_start_time int_of value).hour < 24)
      × ((parse_daily_start_time int_of value).minute < 60)
unfolding parse_daily_start_time
parse-time_range int_of value = ground (arith)

module _ (c : Calendar) (w : World) (store : RuntimeStore w) where
  daily_step :
      (project : String) (n : ℕ) (s : Service w store)
      → IsAwake w store s
      → IsAwake w store (schedule_daily c w store project (n, s)).1
  unfolding schedule_daily enqueue_gitlab_event
  daily_step project n s h =
      let woken = enqueue-IsAwake w store (daily_event c project) s h in
      elim (Bool-cases (daily_due c project)) [
        | inr p ↦ rw p h
        | inl p ↦ elim (Bool-cases (store.append_event (daily_event c project) s.state).0) [
          | inl a ↦ rw (p, a) (rw a at woken)
          | inr a ↦ rw (p, a) (rw a at woken)
        ]
      ]

  daily_all :
      (projects : List String) (n : ℕ) (s : Service w store)
      → IsAwake w store s
      → IsAwake w store (schedule_all_daily c w store projects (n, s)).1
  unfolding schedule_all_daily
  daily_all [] n s h = h
  daily_all (p ∷ ps) n s h =
      let r = schedule_daily c w store p (n, s) in daily_all ps r.0 r.1 (daily_step p n s h)

  evolve_step :
      (project : String) (s : Service w store) (table : Dict String)
      → IsAwake w store s
      → IsAwake w store (evolve_project c w store project (s, table)).1.0
  unfolding evolve_project enqueue_gitlab_event
  evolve_step project s table h =
      let woken = enqueue-IsAwake w store (evolution_event c project) s h in
      elim (Bool-cases (store.append_event (evolution_event c project) s.state).0) [
        | inl a ↦ rw a (rw a at woken)
        | inr a ↦ rw a (rw a at woken)
      ]

  -- what holds of the state on every way through the round holds behind it
  pub go_on_keeps :
      (P : Evolution c w store → Type 0) (wait : Result Bool) (e : Evolution c w store)
      (skipped done : Result ℕ × Evolution c w store)
      → P e
      → P skipped.1
      → P done.1
      → P (go_on c w store wait e skipped done).1
  go_on_keeps P (err x) e skipped done h k l = h
  go_on_keeps P (ok true) e skipped done h k l = k
  go_on_keeps P (ok false) e skipped done h k l = l

  evolve_loop :
      (projects : List String) (n : ℕ) (e : Evolution c w store)
      → IsAwake w store e.0
      → IsAwake w store (evolve_all c w store projects n e).1.0
  unfolding evolve_all
  evolve_loop [] n e h = h
  evolve_loop (p ∷ ps) n (s, table) h =
      let r = evolve_project c w store p (s, table) in
      go_on_keeps (λ e. IsAwake w store e.0)
        (must_wait c w store (last_scheduled_date c w store table p)) (s, table)
        (evolve_all c w store ps n (s, table))
        (evolve_all c w store ps (if r.0 then n + 1 else n) r.1) h (evolve_loop ps n (s, table) h)
        (evolve_loop ps (if r.0 then n + 1 else n) r.1 (evolve_step p s table h))

  -- If every actor that has events is scheduled and every scheduled one has a job, the same holds after `maybe_enqueue_daily_audit_events`, whichever projects are due and whichever events are refused.
  pub daily-IsAwake :
      (s : Service w store)
      → IsAwake w store s
      → IsAwake w store (maybe_enqueue_daily_audit_events c w store s).1
  unfolding maybe_enqueue_daily_audit_events
  daily-IsAwake s h = daily_all (configured_target_projects c.strip c.target_projects) 0 s h

  -- The same holds after `maybe_enqueue_agent_self_evolution_events`, also where a malformed date in its table ends it with an error.
  pub evolution-IsAwake :
      (e : Evolution c w store)
      → IsAwake w store e.0
      → IsAwake w store (maybe_enqueue_agent_self_evolution_events c w store e).1.0
  unfolding maybe_enqueue_agent_self_evolution_events
  evolution-IsAwake e h =
      elim (Bool-cases (
        not c.self_evolution_enabled
        || before c.clock (parse_daily_start_time c.int_of_text c.self_evolution_time))) [
          | inl p ↦ rw p h
          | inr p ↦ rw p (evolve_loop (configured_target_projects c.strip c.target_projects) 0 e h)
        ]
