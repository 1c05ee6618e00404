-- ===== src/Lifecycle/Workflow/Sound/Weather.antt =====
-- The nodes on the weather change what a session keeps of it, and keep it sound.
use travel_plan_agent.Common.{
  ℕ, ◌+◌, ◌≡◌, refl, String, none, lookup, string_eq, nat_eq, Result, ok, raise, or_raise,
  and_then-ok, require-ok, arith,
}
use travel_plan_agent.Lifecycle.Models.{
  PlanSessionStatus, PlanSessionRecord, LifecycleResumeRequest, LifecycleError, conflict,
  action_error,
}
use travel_plan_agent.Lifecycle.Fingerprints.{Digest}
use travel_plan_agent.Lifecycle.Workflow.{settled}
use travel_plan_agent.Weather.Models.{WeatherRecords}
use travel_plan_agent.Lifecycle.Workflow.Weather.{
  Stop, refused, failed, lifted, is_unresolved, with_dismissal, dismiss_weather_event,
}
use travel_plan_agent.Lifecycle.Workflow.Sound.{IsSound, Advances}
use travel_plan_agent.Lifecycle.Workflow.Sound.Selection.{ensure_expected-ok, settled_receipt}

module _ (digest : Digest) (max_versions : ℕ) (weather : WeatherRecords) where
  pub with_weather-IsSound :
      (session : PlanSessionRecord)
      → IsSound digest max_versions session
      → IsSound digest max_versions (record session { weather = weather })
  with_weather-IsSound session sound = record {
    line = sound.line;
    head = sound.head;
    within = sound.within;
    unselected = sound.unselected;
    locked = sound.locked;
    pending = sound.pending;
  }

  -- A session that is active again, with other records of the weather.
  pub active-IsSound :
      (request : LifecycleResumeRequest) (session : PlanSessionRecord)
      → IsSound digest max_versions session
      → let new =
          settled
            (record session { weather = weather })
            request
            PlanSessionStatus.active
            none
            none in
        IsSound digest max_versions new × Advances request session new
  active-IsSound request session sound = (
    record {
      line = sound.line;
      head = sound.head;
      within = sound.within;
      unselected = λ e. absurd (cc e);
      locked = sound.locked;
      pending = λ e. absurd (cc e);
    },
    record {
      same_id = refl;
      revised = refl;
      noted =
          settled_receipt (record session { weather = weather }) request PlanSessionStatus.active
            none none;
      kept = λ n v e. e;
    },
  )

pub with_weather-Advances :
    (weather : WeatherRecords) (request : LifecycleResumeRequest) (old session : PlanSessionRecord)
    → Advances request old session
    → Advances request old (record session { weather = weather })
with_weather-Advances weather request old session advances = record {
  same_id = advances.same_id;
  revised = advances.revised;
  noted = advances.noted;
  kept = advances.kept;
}

-- What a request does that saves the session and raises: the next revision, and records of the weather.
pub record Fails (old new : PlanSessionRecord) : Type 0 where
  pub weather : WeatherRecords
  pub same : new ≡ record old { session_revision = old.session_revision + 1; weather = weather }

pub Fails-IsSound :
    (digest : Digest) (max_versions : ℕ) (old new : PlanSessionRecord)
    → IsSound digest max_versions old
    → Fails old new
    → IsSound digest max_versions new
Fails-IsSound digest max_versions old new sound fails = rw (fails.same) (record {
  line = sound.line;
  head = sound.head;
  within = sound.within;
  unselected = sound.unselected;
  locked = sound.locked;
  pending = sound.pending;
})

-- What a node that stops leaves.
abbrev pub Halts : PlanSessionRecord → Stop → Type 0
Halts session (refused e) = Unit
Halts session (failed new e) = Fails session new

abbrev pub HaltsIn {ℓ} : {A : Type ℓ} → PlanSessionRecord → Result Stop A → Type 0
HaltsIn session (raise s) = Halts session s
HaltsIn session (ok a) = Unit

pub lifted-HaltsIn {ℓ} :
    {A : Type ℓ} (session : PlanSessionRecord) (r : Result LifecycleError A)
    → HaltsIn session (lifted r)
lifted-HaltsIn session (raise e) = tt
lifted-HaltsIn session (ok a) = tt

pub dismiss_weather_event-IsSound :
    (digest : Digest) (max_versions : ℕ) (id : String) (session new : PlanSessionRecord)
    (request : LifecycleResumeRequest)
    → IsSound digest max_versions session
    → dismiss_weather_event id session request ≡ ok new
    → IsSound digest max_versions new × Advances request session new
unfolding dismiss_weather_event
dismiss_weather_event-IsSound digest max_versions id session new request sound h =
    let h1 = ensure_expected-ok session request _ h in
    let (event, known, h2) =
      and_then-ok
        (or_raise (lookup id session.weather.weather_events)
          (action_error "weather_event_not_found"))
        _ h1 in
    let (receipt, found, h3) =
      and_then-ok
        (or_raise (lookup id session.weather.weather_monitor.event_receipts)
          (action_error "weather_event_not_found"))
        _ h2 in
    let (open_still, h4) =
      require-ok (is_unresolved receipt.status) (conflict "weather_event_already_resolved") _ h3 in
    let weather = with_dismissal id receipt session.weather in
    let same : settled (record session { weather = weather }) request PlanSessionStatus.active none
          none
        ≡ new =
      ground (arith, h4) in
    rw (← same) (active-IsSound digest max_versions weather request session sound)
