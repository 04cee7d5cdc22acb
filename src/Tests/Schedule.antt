-- ===== src/Tests/Schedule.antt =====
-- A calendar with two projects, at 03:00 on day 100.
use open_review.Base.{◌≡◌, refl, true, some, none, [], ◌∷◌, ◌==◌, arith, if◌then◌else◌}
use open_review.Base.Result.{ok}
use open_review.Runtime.Worker.Schedule.{
  Time, Calendar, Evolution, parse_daily_start_time, maybe_enqueue_agent_self_evolution_events,
}
use open_review.Runtime.Worker.Schedule.Interval.{later_at, evolution-spaced}
use open_review.Runtime.Store.Instance.{append}
use open_review.Tests.{world, program}
use open_review.Tests.Worker.{runtime, service}

abbrev calendar : Calendar
calendar = record {
  int_of_text = λ s. if s == "03" then some 3 else if s == "30" then some 30 else none;
  strip = λ s. s;
  target_projects = "7" ∷ "8" ∷ [];
  daily_audit_enabled = λ p. true;
  daily_start_time = λ p. "02:00";
  default_branch = λ p. none;
  self_evolution_enabled = true;
  self_evolution_time = "";
  interval_setting = some 7;
  iso = λ d. "day";
  day_of = λ s. if s == "day" then some 100 else none;
  today = 100;
  clock = record { hour = 3; minute = 0 };
  now_text = "t0";
}

half_past : parse_daily_start_time calendar.int_of_text "03:30" ≡ record { hour = 3; minute = 30 }
unfolding parse_daily_start_time
half_past = refl

abbrev evolution : Evolution calendar world runtime
evolution = (service, [])

both_scheduled :
    (maybe_enqueue_agent_self_evolution_events calendar world runtime evolution).0 ≡ ok 2
unfolding maybe_enqueue_agent_self_evolution_events program append
both_scheduled = refl

abbrev noon : Time
noon = record { hour = 12; minute = 0 }

evolution-spaced_example :
    maybe_enqueue_agent_self_evolution_events
      (later_at calendar 106 noon "t10")
      world
      runtime
      (maybe_enqueue_agent_self_evolution_events calendar world runtime evolution).1
    ≡ (ok 0, (maybe_enqueue_agent_self_evolution_events calendar world runtime evolution).1)
unfolding maybe_enqueue_agent_self_evolution_events
evolution-spaced_example =
    evolution-spaced calendar world runtime evolution 106 noon "t10"
      (record { stripped = refl; written = refl; read_back = refl }) both_scheduled (omega arith)
