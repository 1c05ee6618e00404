-- ===== src/Lifecycle/Models.antt =====
-- domain/lifecycle_models.py and lifecycle/errors.py. The version `V{n}` and the preview `P{n}` are
-- their numbers; a lock is named by its kind and target, with a date for the ISO text of a day. Of
-- the trigger of a preview there is its event. The times of creation, the routes, the soft critic and the diffs are left out.
use travel_plan_agent.Common.{
  ◌≡◌, ◌↔◌, arith, ==_iff, str_eq_iff, Eq, ℕ, String, Bool, true, false, Option, List, str_eq, ◌==◌,
}
use travel_plan_agent.Planning.Models.{PlanCandidate, PlanningPoi, TripSpec, CandidateDraft}
use travel_plan_agent.Planning.Validator.{ValidationResult}
use travel_plan_agent.Weather.Models.{WeatherRecords}

pub data PlanSessionStatus : Type 0 where
  needs_requirement_clarification awaiting_candidate_selection active : PlanSessionStatus
  needs_edit_clarification building_preview awaiting_change_approval : PlanSessionStatus
  change_rejected requires_new_plan : PlanSessionStatus

pub data EditOperationKind : Type 0 where
  move_item reorder_item remove_item add_item replace_item : EditOperationKind

pub data ImpactScope : Type 0 where
  item day multi_day requires_new_plan : ImpactScope

pub data PreviewStatus : Type 0 where
  pending approved rejected stale invalid : PreviewStatus

-- The kind of a lock and its target.
pub data LockKey : Type 0 where
  day_lock : ℕ → LockKey
  item_lock : String → LockKey

pub record PlanLock : Type 0 where
  pub lock_id : LockKey
  pub expected_fingerprint : String
  pub created_by_request_id : String

pub record EditOperation : Type 0 where
  pub kind : EditOperationKind
  pub item_id : Option String
  pub item_name : Option String
  pub target_date : Option ℕ
  pub target_index : Option ℕ
  pub poi_name : Option String

pub record ImpactResult : Type 0 where
  pub scope : ImpactScope
  pub affected_dates : List ℕ
  pub affected_item_ids : List String
  pub preserved_dates : List ℕ
  pub lock_conflicts : List LockKey

-- A candidate with its `validation`.
pub record CheckedPlan : Type 0 where
  pub plan : PlanCandidate
  pub validation : Option ValidationResult

pub record PlanningSnapshot : Type 0 where
  pub trip : TripSpec
  pub candidates : List CheckedPlan
  pub recommended_candidate_id : String
  pub candidate_drafts : List CandidateDraft
  pub planning_pois : List PlanningPoi

pub record PlanVersion : Type 0 where
  pub number : ℕ
  pub parent_version_id : Option ℕ
  pub source_request_id : String
  pub selected_candidate_id : String
  pub candidate : CheckedPlan
  pub candidate_draft : CandidateDraft
  pub planning_pois : List PlanningPoi

pub record PlanPreview : Type 0 where
  pub preview_id : ℕ
  pub base_version_id : ℕ
  pub base_session_revision : ℕ
  pub source_request_id : String
  pub candidate : CheckedPlan
  pub candidate_draft : CandidateDraft
  pub planning_pois : List PlanningPoi
  pub impact : ImpactResult
  pub status : PreviewStatus
  pub approval_token_hash : String
  pub event_id : Option String

pub record ActionReceipt : Type 0 where
  pub request_id : String
  pub action_kind : String
  pub resulting_revision : ℕ
  pub resulting_version_id : Option ℕ
  pub resulting_preview_id : Option ℕ

-- The fields on the weather are one record. The interrupt of the planning is its identifier.
pub record PlanSessionRecord : Type 0 where
  pub session_id : String
  pub status : PlanSessionStatus
  pub session_revision : ℕ
  pub snapshot : Option PlanningSnapshot
  pub active_version_id : Option ℕ
  pub pending_preview_id : Option ℕ
  pub versions : List (ℕ × PlanVersion)
  pub previews : List (ℕ × PlanPreview)
  pub locks : List (LockKey × PlanLock)
  pub receipts : List (String × ActionReceipt)
  pub external_interrupt : Option String
  pub weather : WeatherRecords

pub data LifecycleAction : Type 0 where
  accept_recommendation : LifecycleAction
  select_candidate : String → LifecycleAction
  lock unlock : LockKey → LifecycleAction
  edit : List EditOperation → LifecycleAction
  edit_text : String → LifecycleAction
  approve_preview : ℕ → String → LifecycleAction
  reject_preview : ℕ → LifecycleAction
  clarify_requirement clarify_edit : String → LifecycleAction
  refresh_weather : LifecycleAction
  dismiss_weather_event : String → LifecycleAction

pub record LifecycleResumeRequest : Type 0 where
  pub interrupt_id : String
  pub request_id : String
  pub expected_active_version_id : Option ℕ
  pub expected_session_revision : Option ℕ
  pub action : LifecycleAction

-- `LifecycleNotFoundError`, `LifecycleConflictError` and `LifecycleActionError` with their codes, the
-- errors of a tool that is not available, and the errors of Python that the handlers let through.
pub data LifecycleError : Type 0 where
  not_found : LifecycleError
  conflict : String → LifecycleError
  action_error : String → LifecycleError
  unavailable : String → LifecycleError
  value_error key_error runtime_error assertion_error : LifecycleError

abbrev pub same_lock : LockKey → LockKey → Bool
same_lock (LockKey.day_lock a) (LockKey.day_lock b) = a == b
same_lock (LockKey.item_lock a) (LockKey.item_lock b) = str_eq a b
same_lock (LockKey.day_lock a) (LockKey.item_lock b) = false
same_lock (LockKey.item_lock a) (LockKey.day_lock b) = false

pub same_lock_iff : (a b : LockKey) → (same_lock a b ≡ true) ↔ (a ≡ b)
same_lock_iff (LockKey.day_lock a) (LockKey.day_lock b) = ground (arith, ==_iff a b)
same_lock_iff (LockKey.item_lock a) (LockKey.item_lock b) = ground (arith, str_eq_iff a b)
same_lock_iff (LockKey.day_lock a) (LockKey.item_lock b) = ground arith
same_lock_iff (LockKey.item_lock a) (LockKey.day_lock b) = ground arith

instance abbrev pub lock_eq : Eq LockKey
lock_eq = record { beq = same_lock; beq_iff = same_lock_iff }
