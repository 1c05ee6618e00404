-- ===== src/Lifecycle/Workflow/Preview.antt =====
-- lifecycle/workflow.py: `build_preview`. The places after the search for new
-- ones, planning/planner.py's `materialize_candidates` with the routes, and the token are arguments.
-- The soft critic, which only adds its summary, and the content of the diff are left out.
use travel_plan_agent.Common.{
  ℕ, ◌+◌, String, Bool, true, false, Option, none, some, List, [], ◌∷◌, ◌&&◌, not, str_eq, ◌==◌,
  if◌then◌else◌, any, all, length, lookup, insert, nat_eq, string_eq, Result, ok, and_then, require,
  or_raise,
}
use travel_plan_agent.Common.Text.{Unicode}
use travel_plan_agent.Planning.Models.{
  PlanItem, DayPlan, PlanCandidate, PlanningPoi, CandidateDraft, Violation,
}
use travel_plan_agent.Planning.Validator.{ValidationResult, validate_candidate}
use travel_plan_agent.Lifecycle.Models.{
  PlanSessionStatus, PreviewStatus, LockKey, PlanLock, EditOperation, ImpactResult, PlanVersion,
  PlanPreview, PlanSessionRecord, LifecycleResumeRequest, LifecycleError, value_error, key_error,
  runtime_error, assertion_error,
}
use travel_plan_agent.Weather.Models.{
  WeatherEventStatus, WeatherRefreshOutcome, WeatherSnapshot, DailyWeatherRisk, ChangeEvent,
  WeatherRecords,
}
use travel_plan_agent.Weather.Persistence.{Observation, persist_weather_observation}
use travel_plan_agent.Lifecycle.Impact.{analyze_change_impact}
use travel_plan_agent.Lifecycle.Actions.{apply_edit_patch, or_text}
use travel_plan_agent.Lifecycle.Fingerprints.{Digest, day_fingerprint}
use travel_plan_agent.Lifecycle.Workflow.{ensure_expected, active_version, settled, is_valid_status}
use travel_plan_agent.Lifecycle.Workflow.Selection.{fingerprint_of, day_fingerprint_of}
use travel_plan_agent.Lifecycle.Workflow.Editing.{all_locks}

-- `item_ids_by_poi.get(item.poi_id or "")` for every item.
abbrev with_poi_ids : List (String × String) → List PlanItem → List PlanItem
with_poi_ids ids [] = []
with_poi_ids ids (i ∷ items) =
    record i { item_id = lookup (or_text i.poi_id) ids } ∷ with_poi_ids ids items

abbrev days_with_poi_ids : List (String × String) → List DayPlan → List DayPlan
days_with_poi_ids ids [] = []
days_with_poi_ids ids (d ∷ days) =
    record d { items = with_poi_ids ids d.items } ∷ days_with_poi_ids ids days

-- `{day.date: day for day in days}.get(date)`: the last day of the date.
abbrev pub last_day : ℕ → List DayPlan → Option DayPlan
last_day date [] = none
last_day date (d ∷ days) = elim (last_day date days) [
  | some later ↦ some later
  | none ↦ if d.date == date then some d else none
]

abbrev has_identifier : PlanItem → Bool
has_identifier i = elim i.item_id [ none ↦ false | some id ↦ true ]

-- The test of `_index` in lifecycle/diff.py.
abbrev pub all_identified : PlanCandidate → Bool
all_identified candidate = all (λ (d : DayPlan). all has_identifier d.items) candidate.days

abbrev pub is_hard_valid : ValidationResult → Bool
is_hard_valid result =
    is_valid_status result.status && not (any (λ (v : Violation). v.is_error) result.violations)

-- What the state has of the weather when a preview answers to an event.
pub record Trigger : Type 0 where
  pub event : ChangeEvent
  pub snapshot : WeatherSnapshot
  pub risks : List DailyWeatherRisk
  pub max_events : ℕ

-- What `build_preview` gets: the places, the plan for a draft, and a token from outside, and the event
-- that the request has found, if there is one.
pub record Surroundings : Type 0 where
  pub planning_pois : List PlanningPoi
  pub materialize : CandidateDraft → PlanCandidate
  pub token : String
  pub trigger : Option Trigger

abbrev event_id_of : Option Trigger → Option String
event_id_of none = none
event_id_of (some t) = some t.event.event_id

abbrev pub observation_of : Trigger → Bool → Observation
observation_of t valid = record {
  snapshot = t.snapshot;
  risks = t.risks;
  outcome =
      if valid
      then WeatherRefreshOutcome.preview_created
      else WeatherRefreshOutcome.needs_user_attention;
  event = some t.event;
  event_status = some (
      if valid
      then WeatherEventStatus.preview_created
      else WeatherEventStatus.needs_user_attention);
}

-- The receipt of the event gets the preview; a receipt that is not kept is a missing key.
abbrev pub with_preview_id : String → ℕ → WeatherRecords → Result LifecycleError WeatherRecords
with_preview_id id preview_id r =
    and_then (or_raise (lookup id r.weather_monitor.event_receipts) key_error) λ receipt.
      ok (record r {
        weather_monitor = record r.weather_monitor {
          event_receipts =
              insert id (record receipt { resulting_preview_id = some preview_id })
                r.weather_monitor.event_receipts;
        };
      })

-- What the event adds to the session with the preview, which reads nothing of it.
abbrev pub with_trigger :
    Option Trigger → Bool → ℕ → PlanSessionRecord → Result LifecycleError PlanSessionRecord
with_trigger none valid preview_id session = ok session
with_trigger (some t) valid preview_id session =
    and_then
      (with_preview_id t.event.event_id preview_id
        (persist_weather_observation t.max_events (observation_of t valid) session.weather))
      λ weather. ok (record session { weather = weather })

abbrev pub is_fingerprint : Option String → String → Bool
is_fingerprint none expected = false
is_fingerprint (some found) expected = str_eq found expected

abbrev pub previewed :
    PlanSessionRecord → LifecycleResumeRequest → PlanPreview → Bool → PlanSessionRecord
previewed session request preview valid =
    record (settled session request
      (if valid
        then PlanSessionStatus.awaiting_change_approval
        else PlanSessionStatus.change_rejected)
      none (some preview.preview_id)) {
        previews = insert preview.preview_id preview session.previews;
        pending_preview_id = some preview.preview_id;
      }

abbrev pub materialized : Surroundings → CandidateDraft × List (String × String) → PlanCandidate
materialized around (draft, ids) =
    let raw = around.materialize draft in record raw { days = days_with_poi_ids ids raw.days }

module _ (digest : Digest) where
  -- The guard of one preserved day.
  abbrev preserved_day : PlanCandidate → PlanCandidate → ℕ → Result LifecycleError (Unit {0})
  preserved_day before after date =
      and_then (or_raise (day_fingerprint_of digest (last_day date before.days)) key_error) λ old.
        and_then (or_raise (day_fingerprint_of digest (last_day date after.days)) key_error)
          λ new. require (str_eq old new) runtime_error (ok tt)

  abbrev pub preserved_days :
      PlanCandidate → PlanCandidate → List ℕ → Result LifecycleError (Unit {0})
  preserved_days before after [] = ok tt
  preserved_days before after (date ∷ dates) =
      and_then (preserved_day before after date) λ done. preserved_days before after dates

  abbrev pub guarded_fingerprint : PlanCandidate → LockKey → Option String
  guarded_fingerprint after (LockKey.day_lock date) =
      day_fingerprint_of digest (last_day date after.days)
  guarded_fingerprint after (LockKey.item_lock id) =
      fingerprint_of digest after (LockKey.item_lock id)

  -- The guard of the locks.
  abbrev pub keeps_lock : PlanCandidate → PlanLock → Bool
  keeps_lock after lock =
      is_fingerprint (guarded_fingerprint after lock.lock_id) lock.expected_fingerprint

  abbrev pub preview_of :
      PlanSessionRecord
      → LifecycleResumeRequest
      → Surroundings
      → PlanVersion
      → ImpactResult
      → CandidateDraft
      → PlanCandidate
      → ValidationResult
      → PlanPreview
  preview_of session request around version impact draft after result = record {
    preview_id = length session.previews + 1;
    base_version_id = version.number;
    base_session_revision = session.session_revision + 1;
    source_request_id = request.request_id;
    candidate = record { plan = after; validation = some result };
    candidate_draft = draft;
    planning_pois = around.planning_pois;
    impact = impact;
    status = if is_hard_valid result then PreviewStatus.pending else PreviewStatus.invalid;
    approval_token_hash = digest.approval_hash (if is_hard_valid result then around.token else "");
    event_id = event_id_of around.trigger;
  }

  abbrev pub guarded :
      PlanSessionRecord
      → LifecycleResumeRequest
      → Surroundings
      → PlanVersion
      → ImpactResult
      → CandidateDraft
      → PlanCandidate
      → ValidationResult
      → Result LifecycleError PlanSessionRecord
  guarded session request around version impact draft after result =
      and_then (preserved_days version.candidate.plan after impact.preserved_dates) λ done.
        require (all (keeps_lock after) (all_locks session)) runtime_error (
          require (all_identified version.candidate.plan && all_identified after) value_error (
            ok (
              previewed session request
                (preview_of session request around version impact draft after result)
                (is_hard_valid result))))

  module _ ⦃u : Unicode⦄ (max_affected_days : ℕ) where
    unfoldable pub build_preview :
        List EditOperation
        → Surroundings
        → PlanSessionRecord
        → LifecycleResumeRequest
        → Result LifecycleError PlanSessionRecord
    unfolding lookup insert apply_edit_patch analyze_change_impact validate_candidate
        day_fingerprint fingerprint_of
    build_preview patch around session request = ensure_expected session request (
        and_then (or_raise session.snapshot assertion_error) λ snapshot.
          and_then (active_version session) λ version.
            and_then
              (apply_edit_patch snapshot.trip around.planning_pois
                (digest.new_item_id request.request_id) version.candidate.plan
                version.candidate_draft patch)
              λ edited.
                let after = materialized around edited in
                let result = validate_candidate snapshot.trip after around.planning_pois in
                and_then
                  (guarded session request around version
                    (analyze_change_impact version.candidate.plan patch (all_locks session)
                      max_affected_days)
                    edited.0 after result)
                  (with_trigger around.trigger (is_hard_valid result)
                    (length session.previews + 1)))
