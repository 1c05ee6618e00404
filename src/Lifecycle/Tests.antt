-- ===== src/Lifecycle/Tests.antt =====
-- A trip of two days: the plan is selected, its second day is locked, the first is reordered, and the
-- preview is approved. A refresh of the weather, which knows no place, is stored as a failure.
mod Edits
mod Weather
use travel_plan_agent.Common.{
  ℕ, ◌+◌, ◌≤◌, ◌≡◌, refl, String, true, false, none, some, List, [], ◌∷◌, map, contains, lookup,
  insert, delete, ok, raise, arith,
}
use travel_plan_agent.Common.Text.{Unicode, occurs, normalize}
use travel_plan_agent.Common.Sort.{sort_by}
use travel_plan_agent.Planning.Models.{
  ItemType, PlanItem, DayPlan, PlanCandidate, PlanningPoi, TripSpec, CandidateDraft,
}
use travel_plan_agent.Planning.Repair.{poi_by_id, distinct, is_required_name}
use travel_plan_agent.Planning.Repair.Apply.{day_pois}
use travel_plan_agent.Planning.Validator.{ValidationStatus}
use travel_plan_agent.Lifecycle.Models.{
  PlanSessionStatus, EditOperationKind, EditOperation, LockKey, PlanVersion, PlanSessionRecord,
  LifecycleAction, LifecycleResumeRequest,
}
use travel_plan_agent.Lifecycle.Repository.{run_saves, revision_of, run_saves-revision_of}
use travel_plan_agent.Lifecycle.Impact.{analyze_change_impact}
use travel_plan_agent.Lifecycle.Actions.{candidate_items, apply_edit_patch}
use travel_plan_agent.Lifecycle.Actions.Days.{times}
use travel_plan_agent.Lifecycle.Actions.Protected.{apply_edit_patch-times}
use travel_plan_agent.Lifecycle.Actions.Unaffected.{outside, apply_edit_patch-unaffected}
use travel_plan_agent.Lifecycle.Fingerprints.{Digest}
use travel_plan_agent.Lifecycle.Workflow.Selection.{fingerprint_of, change_lock}
use travel_plan_agent.Lifecycle.Workflow.Unlock.{with_locks, change_lock_undone}
use travel_plan_agent.Lifecycle.Workflow.Session.{resume, run_requests}
use travel_plan_agent.Lifecycle.Workflow.World.{not_completed, Outside, Policy, World}
use travel_plan_agent.Weather.Models.{WeatherAvailability, WeatherRecords}
use travel_plan_agent.Lifecycle.Workflow.Weather.{WeatherTools}
use travel_plan_agent.Lifecycle.Workflow.Sound.{IsSound}
use travel_plan_agent.Lifecycle.Workflow.Sound.Requests.{
  Stores, Follows, resume-again, run_requests-IsSound,
}

instance abbrev simple : Unicode
simple = record { strip = λ s. s; casefold = λ s. s; lower = λ s. s }

abbrev item : String → ℕ → ℕ → PlanItem
item name start end = record {
  item_id = none;
  type = ItemType.activity;
  name = name;
  start_at = start;
  end_at = end;
  poi_id = some name;
  travel_from_previous_minutes = 10;
  distance_from_previous_meters = 900;
  estimated_cost = some 20;
}

abbrev day_with : ℕ → List PlanItem → DayPlan
day_with date items = record {
  date = date;
  items = items;
  walking_distance_meters = 1_200;
  total_travel_minutes = 20;
  known_estimated_cost = 40;
}

abbrev plan_with : List PlanItem → PlanCandidate
plan_with first = record {
  id = "c";
  days = day_with 10 first ∷ day_with 11 (item "lake" 990_000 995_000 ∷ []) ∷ [];
  known_estimated_cost = 60;
  violations = [];
  assumptions = [];
}

abbrev before : PlanCandidate
before = plan_with (item "zoo" 900_000 907_200 ∷ item "park" 910_000 915_000 ∷ [])

abbrev after : PlanCandidate
after = plan_with (item "park" 900_000 905_000 ∷ item "zoo" 908_000 915_000 ∷ [])

abbrev poi : String → PlanningPoi
poi name = record {
  id = name;
  name = name;
  categories = [];
  opening_windows = [];
  opening_window_sources = [];
  duration_minutes = 90;
  data_confidence = 900_000;
}

abbrev pois : List PlanningPoi
pois = poi "zoo" ∷ poi "park" ∷ poi "lake" ∷ []

abbrev trip : TripSpec
trip = record {
  arrival = record { local_date = 9; at = 800_000 };
  departure = record { local_date = 12; at = 1_120_000 };
  total_budget = some 100;
  interests = [];
  avoid = [];
  must_visit = "zoo" ∷ [];
  mobility = record { max_daily_walking_meters = 8_000; max_daily_activity_minutes = 480 };
  daily_start = 32_400;
  daily_end = 72_000;
}

abbrev draft : CandidateDraft
draft = record {
  id = "c";
  days =
      record { date = 10; poi_ids = "zoo" ∷ "park" ∷ [] }
      ∷ record { date = 11; poi_ids = "lake" ∷ [] }
      ∷ [];
}

abbrev digest : Digest
digest = record {
  day_hash = λ p. "day";
  item_hash = λ p. p.name;
  stable_item_id = λ candidate key day occurrence. key;
  new_item_id = λ request index. "new";
  approval_hash = λ token. token;
}

abbrev no_weather : WeatherRecords
no_weather = record {
  trip_days = some (10, 11);
  weather_monitor = record {
    location = none;
    availability = WeatherAvailability.unavailable;
    latest_snapshot_id = none;
    previous_snapshot_id = none;
    latest_event_id = none;
    attention_event_id = none;
    last_outcome = none;
    last_safe_error_code = none;
    last_attempt_at = none;
    last_success_at = none;
    uncovered_dates = [];
    event_receipts = [];
  };
  weather_snapshots = [];
  weather_risks = [];
  weather_events = [];
}

abbrev new_session : PlanSessionRecord
new_session = record {
  session_id = "s";
  status = PlanSessionStatus.awaiting_candidate_selection;
  session_revision = 0;
  snapshot = some (record {
    trip = trip;
    candidates =
        record {
          plan = before;
          validation = some (record { status = ValidationStatus.valid; violations = [] });
        }
        ∷ [];
    recommended_candidate_id = "c";
    candidate_drafts = draft ∷ [];
    planning_pois = pois;
  });
  active_version_id = none;
  pending_preview_id = none;
  versions = [];
  previews = [];
  locks = [];
  receipts = [];
  external_interrupt = none;
  weather = no_weather;
}

abbrev start : World
start = record {
  sessions = ("s", new_session) ∷ [];
  graph = record { edit_patch = []; clarification_round = 0; interrupt_id = "i0" };
}

abbrev policy : Policy
policy = record {
  digest = digest;
  max_affected_days = 2;
  max_versions = 20;
  weather = record {
    configured = true;
    hash = record {
      snapshot_hash = λ p. p.provider;
      event_hash = λ p. "event";
      snapshot_name = λ fingerprint. fingerprint;
      event_name = λ fingerprint. fingerprint;
    };
    risk_fingerprint = λ p. "risk";
    max_events = 3;
    version_name = λ n. "V";
  };
}

-- A gateway that knows no place.
abbrev weather_tools : WeatherTools
weather_tools = record {
  resolve_location = raise "weather_location_unresolved";
  get_forecast = λ location. raise "unavailable";
  analyze_weather_impact = λ event risks. record {
    affected_dates = 11 ∷ [];
    affected_item_ids = "lake" ∷ [];
    preserved_dates = 10 ∷ [];
    requires_user_attention = true;
  };
  resolve_indoor_alternatives = ok [];
  now = 77;
}

-- What comes from outside: the next interrupt, and the reordered plan for every draft.
abbrev leading_to : String → Outside
leading_to interrupt = record {
  parse_text = λ text. ok [];
  around = record {
    planning_pois = pois;
    materialize = λ (d : CandidateDraft). after;
    token = "token";
    trigger = none;
  };
  weather_tools = weather_tools;
  resume_natural_planning = λ answer. ok not_completed;
  next_interrupt = interrupt;
}

abbrev asking : String → String → LifecycleAction → LifecycleResumeRequest
asking interrupt id action = record {
  interrupt_id = interrupt;
  request_id = id;
  expected_active_version_id = none;
  expected_session_revision = none;
  action = action;
}

abbrev reorder : EditOperation
reorder = record {
  kind = EditOperationKind.reorder_item;
  item_id = some "zoo";
  item_name = none;
  target_date = none;
  target_index = some 1;
  poi_name = none;
}

abbrev requests : List (Outside × LifecycleResumeRequest)
requests =
    (leading_to "i1", asking "i0" "r1" LifecycleAction.accept_recommendation)
    ∷ (leading_to "i2", asking "i1" "r2" (LifecycleAction.lock (LockKey.day_lock 11)))
    ∷ (leading_to "i3", asking "i2" "r3" (LifecycleAction.edit (reorder ∷ [])))
    ∷ (leading_to "i4", asking "i3" "r4" (LifecycleAction.approve_preview 1 "token"))
    ∷ (leading_to "i5", asking "i4" "r5" LifecycleAction.refresh_weather)
    ∷ []

abbrev revision : World → ℕ
revision w = revision_of "s" w.sessions

carried_out : revision (run_requests policy "s" requests start) ≡ 5
unfolding run_requests lookup insert delete contains occurs normalize sort_by distinct
    is_required_name poi_by_id day_pois
carried_out = refl

start-Stores : Stores "s" start new_session
unfolding lookup
start-Stores = record { at = refl; named = refl }

new_session-IsSound : IsSound digest 20 new_session
new_session-IsSound = record {
  line = tt;
  head = refl;
  within = omega arith;
  unselected = λ e. (refl, refl);
  locked = tt;
  pending = λ e. absurd (cc e);
}

run_requests-IsSound_example :
    (new : PlanSessionRecord) × Stores "s" (run_requests policy "s" requests start) new
    × IsSound digest 20 new
    × Follows new_session new
run_requests-IsSound_example =
    run_requests-IsSound policy (omega arith) "s" requests start new_session start-Stores
      new_session-IsSound

abbrev select : LifecycleResumeRequest
select = asking "i0" "r1" LifecycleAction.accept_recommendation

abbrev selected : World
selected = (resume policy "s" (leading_to "i1") select start).1

selects : resume policy "s" (leading_to "i1") select start ≡ (ok tt, selected)
unfolding resume lookup insert normalize
selects = refl

resume-again_example : resume policy "s" (leading_to "i9") select selected ≡ (ok tt, selected)
resume-again_example =
    resume-again policy (omega arith) "s" (leading_to "i1") (leading_to "i9") select select start
      selected new_session start-Stores new_session-IsSound refl selects
