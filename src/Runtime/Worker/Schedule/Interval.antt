-- ===== src/Runtime/Worker/Schedule/Interval.antt =====
-- Self evolution of a project is not scheduled again before its interval is over.
use open_review.Base.{
  ℕ, suc, ◌+◌, ◌-◌, ◌<◌, ◌≤◌, ◌≡◌, ◌⊎◌, inl, inr, refl, sym, String, Bool, true, false, not, ◌||◌,
  some, List, [], ◌∷◌, ◌==◌, lt→ltb, if◌then◌else◌, All, All-weaken, Bool-cases, arith, length,
}
use mathlib.Core.Path.{subst}
use open_review.Base.Dict
use open_review.Base.Dict.{Dict}
use open_review.Base.Result.{Result, ok, err}
use open_review.Runtime.World.{World}
use open_review.Runtime.RuntimeStore.{RuntimeStore}
use open_review.Runtime.Worker.Schedule.Laws.{go_on_keeps}
use open_review.Runtime.Worker.Schedule.{
  Time, Calendar, configured_target_projects, before, interval_days, parse_daily_start_time,
  Evolution, last_scheduled_date, must_wait, evolve_project, evolve_all, go_on,
  maybe_enqueue_agent_self_evolution_events,
}

-- the text of today's date is a text that `strip` leaves, and parses back to the day
pub record ReadsDates (c : Calendar) : Type 0 where
  pub stripped : c.strip (c.iso c.today) ≡ c.iso c.today
  pub written : (c.iso c.today == "") ≡ false
  pub read_back : c.day_of (c.iso c.today) ≡ some c.today

-- the calendar at another time
abbrev pub later_at : Calendar → ℕ → Time → String → Calendar
later_at c day clock text = record c { today = day; clock = clock; now_text = text }

nil_All : {A : Type 0} (P : A → Type 0) (xs : List A) → length xs ≡ 0 → All P xs
nil_All P [] h = tt
nil_All P (x ∷ xs) h = absurd (omega arith)

ok_length : (xs : List String) → ◌≡◌ {A = Result ℕ} (ok 0) (ok (length xs)) → length xs ≡ 0
ok_length xs h = cc

either_way : {A : Type 0} (b : Bool) {x y : A} → x ≡ y → (if b then y else x) ≡ y
either_way true h = refl
either_way false h = h

one_more : (b : Bool) (n m l : ℕ) → m ≤ (if b then n + 1 else n) + l → m ≤ n + suc l
one_more true n m l h = omega arith
one_more false n m l h = omega arith

module _ (c : Calendar) (w : World) (store : RuntimeStore w) where
  -- the table has today's date for the project
  abbrev pub IsRecorded : Dict String → String → Type 0
  IsRecorded table project = Dict.get table project ≡ some (c.iso c.today)

  step_keeps :
      (q p : String) (e : Evolution c w store)
      → IsRecorded e.1 p
      → IsRecorded (evolve_project c w store q e).1.1 p
  unfolding evolve_project
  step_keeps q p (s, table) h = ground (arith, Dict.get-put table q p (c.iso c.today), h)

  step_records :
      (p : String) (e : Evolution c w store)
      → (evolve_project c w store p e).0 ≡ true
      → IsRecorded (evolve_project c w store p e).1.1 p
  unfolding evolve_project
  step_records p (s, table) h = ground (arith, Dict.get-put_self table p (c.iso c.today))

  all_keeps :
      (ps : List String) (n : ℕ) (p : String) (e : Evolution c w store)
      → IsRecorded e.1 p
      → IsRecorded (evolve_all c w store ps n e).1.1 p
  unfolding evolve_all
  all_keeps [] n p e h = h
  all_keeps (q ∷ ps) n p e h =
      let r = evolve_project c w store q e in
      go_on_keeps c w store (λ x. IsRecorded x.1 p)
        (must_wait c w store (last_scheduled_date c w store e.1 q)) e (evolve_all c w store ps n e)
        (evolve_all c w store ps (if r.0 then n + 1 else n) r.1) h (all_keeps ps n p e h)
        (all_keeps ps (if r.0 then n + 1 else n) p r.1 (step_keeps q p e h))

  -- a round that does not end with an error passes over its project or schedules it
  go_on_cases :
      (wait : Result Bool) (e : Evolution c w store) (skipped done : Result ℕ × Evolution c w store)
      (m : ℕ)
      → (go_on c w store wait e skipped done).0 ≡ ok m
      → ((wait ≡ ok true) × (skipped.0 ≡ ok m)) ⊎ ((wait ≡ ok false) × (done.0 ≡ ok m))
  go_on_cases (err x) e skipped done m h = cc
  go_on_cases (ok true) e skipped done m h = inl (refl, h)
  go_on_cases (ok false) e skipped done m h = inr (refl, h)

  round_cases :
      (p : String) (ps : List String) (n m : ℕ) (e : Evolution c w store)
      → (evolve_all c w store (p ∷ ps) n e).0 ≡ ok m
      → ((must_wait c w store (last_scheduled_date c w store e.1 p) ≡ ok true)
          × ((evolve_all c w store ps n e).0 ≡ ok m))
        ⊎ ((must_wait c w store (last_scheduled_date c w store e.1 p) ≡ ok false)
            × ((evolve_all c w store ps
                  (if (evolve_project c w store p e).0 then n + 1 else n)
                  (evolve_project c w store p e).1).0
                ≡ ok m))
  unfolding evolve_all
  round_cases p ps n m e h = go_on_cases _ e _ _ m h

  count_le :
      (ps : List String) (n m : ℕ) (e : Evolution c w store)
      → (evolve_all c w store ps n e).0 ≡ ok m
      → m ≤ n + length ps
  unfolding evolve_all
  count_le [] n m e h = ground arith
  count_le (p ∷ ps) n m e h = elim (round_cases p ps n m e h) [
    | inl (wait, k) ↦ omega (arith, count_le ps n m e k)
    | inr (due, k) ↦
        let le =
          count_le ps (if (evolve_project c w store p e).0 then n + 1 else n) m
            (evolve_project c w store p e).1 k in
        one_more (evolve_project c w store p e).0 n m (length ps) le
  ]

  -- a round that schedules its project
  scheduled_round :
      (p : String) (ps : List String) (n : ℕ) (e : Evolution c w store)
      → must_wait c w store (last_scheduled_date c w store e.1 p) ≡ ok false
      → (evolve_project c w store p e).0 ≡ true
      → evolve_all c w store (p ∷ ps) n e
        ≡ evolve_all c w store ps (n + 1) (evolve_project c w store p e).1
  unfolding evolve_all
  scheduled_round p ps n e due b = rw (due, b) refl

  all-IsRecorded :
      (ps : List String) (n m : ℕ) (e : Evolution c w store)
      → (evolve_all c w store ps n e).0 ≡ ok m
      → m ≡ n + length ps
      → All (IsRecorded (evolve_all c w store ps n e).1.1) ps
  all-IsRecorded [] n m e h k = tt
  all-IsRecorded (p ∷ ps) n m e h k = elim (round_cases p ps n m e h) [
    | inl (wait, q) ↦ absurd (omega (arith, count_le ps n m e q))
    | inr (due, q) ↦ elim (Bool-cases (evolve_project c w store p e).0) [
      | inl b ↦
          subst (λ (r : Result ℕ × Evolution c w store). All (IsRecorded r.1.1) (p ∷ ps))
            (sym (scheduled_round p ps n e due b))
            (
              all_keeps ps (n + 1) p (evolve_project c w store p e).1 (step_records p e b),
              all-IsRecorded ps (n + 1) m (evolve_project c w store p e).1 (rw b at q)
                  (omega arith),
            )
      | inr b ↦ absurd (omega (arith, count_le ps n m (evolve_project c w store p e).1 (rw b at q)))
    ]
  ]

  -- every project has to wait
  abbrev AllWait : Dict String → List String → Type 0
  AllWait table ps =
      All (λ p. must_wait c w store (last_scheduled_date c w store table p) ≡ ok true) ps

  waiting_lem :
      (ps : List String) (n : ℕ) (e : Evolution c w store)
      → AllWait e.1 ps
      → evolve_all c w store ps n e ≡ (ok n, e)
  unfolding evolve_all
  waiting_lem [] n e h = refl
  waiting_lem (p ∷ ps) n e h = rw h.0 (waiting_lem ps n e h.1)

module _ (c : Calendar) (w : World) (store : RuntimeStore w) where
  recorded_waits :
      (table : Dict String) (p : String) (day : ℕ) (clock : Time) (text : String)
      → ReadsDates c
      → day - c.today < interval_days c.interval_setting
      → IsRecorded c w store table p
      → must_wait
          (later_at c day clock text)
          w
          store
          (last_scheduled_date (later_at c day clock text) w store table p)
        ≡ ok true
  unfolding must_wait last_scheduled_date
  recorded_waits table p day clock text r soon h =
      rw
        (
          h,
          r.stripped,
          r.written,
          r.read_back,
          lt→ltb (day - c.today) (interval_days c.interval_setting) soon,
        )
        refl

  abbrev targets : List String
  targets = configured_target_projects c.strip c.target_projects

  first_records :
      (e : Evolution c w store)
      → (maybe_enqueue_agent_self_evolution_events c w store e).0 ≡ ok (length targets)
      → All
          (IsRecorded c w store (maybe_enqueue_agent_self_evolution_events c w store e).1.1)
          targets
  unfolding maybe_enqueue_agent_self_evolution_events
  first_records e h =
      elim (Bool-cases (
        not c.self_evolution_enabled
        || before c.clock (parse_daily_start_time c.int_of_text c.self_evolution_time))) [
          | inl p ↦ nil_All _ targets (ok_length targets (rw p at h))
          | inr p ↦
              rw p (all-IsRecorded c w store targets 0 (length targets) e (rw p at h) (omega arith))
        ]

  quiet :
      (e : Evolution c w store) (day : ℕ) (clock : Time) (text : String)
      → AllWait (later_at c day clock text) w store e.1 targets
      → maybe_enqueue_agent_self_evolution_events (later_at c day clock text) w store e ≡ (ok 0, e)
  unfolding maybe_enqueue_agent_self_evolution_events
  quiet e day clock text h =
      either_way _ (waiting_lem (later_at c day clock text) w store targets 0 e h)

  -- If a run of `maybe_enqueue_agent_self_evolution_events` schedules every target project, then a run at any later time before the interval of days is over schedules none and changes neither the store, nor the jobs, nor the table: provided that today's date reads back as the day that it was written for.
  pub evolution-spaced :
      (e : Evolution c w store) (day : ℕ) (clock : Time) (text : String)
      → ReadsDates c
      → (maybe_enqueue_agent_self_evolution_events c w store e).0
        ≡ ok (length (configured_target_projects c.strip c.target_projects))
      → day - c.today < interval_days c.interval_setting
      → maybe_enqueue_agent_self_evolution_events
          (later_at c day clock text)
          w
          store
          (maybe_enqueue_agent_self_evolution_events c w store e).1
        ≡ (ok 0, (maybe_enqueue_agent_self_evolution_events c w store e).1)
  evolution-spaced e day clock text r all soon =
      let e' = (maybe_enqueue_agent_self_evolution_events c w store e).1 in
      quiet e' day clock text (
        All-weaken (λ p h. recorded_waits e'.1 p day clock text r soon h) targets
          (first_records e all))
