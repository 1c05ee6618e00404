-- ===== src/Lifecycle/Workflow.antt =====
-- lifecycle/workflow.py: the nodes of the graph that act on a session, each as a function from the
-- session that it reads to the session that it saves with the revision that it has read. The soft
-- critic, the diff, the payloads of interrupts and the event in the receipt of an action are left out.
pub mod Selection
pub mod Editing
pub mod Preview
pub mod Approval
pub mod Weather
pub mod World
pub mod Session
pub mod Sound
pub mod Unlock
use travel_plan_agent.Common.{
  ℕ, ◌+◌, ◌≡◌, String, Bool, true, false, Option, none, some, List, [], ◌∷◌, ◌++◌, ◌&&◌, ◌||◌, not,
  map, ltb, leb, str_eq, ◌==◌, if◌then◌else◌, any, all, find, length, contains, lookup, insert,
  delete, nat_eq, string_eq, Result, ok, raise, and_then, require, or_raise,
}
use travel_plan_agent.Common.Text.{Unicode, normalize, occurs}
use travel_plan_agent.Common.Sort.{sort_by}
use travel_plan_agent.Planning.Models.{
  PlanItem, DayPlan, PlanCandidate, PlanningPoi, TripSpec, CandidateDraft, Violation,
}
use travel_plan_agent.Planning.Validator.{ValidationStatus, ValidationResult, validate_candidate}
use travel_plan_agent.Lifecycle.Models.{
  PlanSessionStatus, PreviewStatus, LockKey, PlanLock, EditOperation, ImpactScope, ImpactResult,
  CheckedPlan, PlanningSnapshot, PlanVersion, PlanPreview, ActionReceipt, PlanSessionRecord,
  LifecycleAction, LifecycleResumeRequest, LifecycleError, conflict, action_error, value_error,
  key_error, runtime_error, assertion_error, day_lock, item_lock, lock_eq,
}
use travel_plan_agent.Lifecycle.Impact.{analyze_change_impact}
use travel_plan_agent.Lifecycle.Actions.{apply_edit_patch}
use travel_plan_agent.Lifecycle.Grounding.{DatedItem, items_with_id, ground_edit_patch}
use travel_plan_agent.Lifecycle.Fingerprints.{
  Digest, item_fingerprint, day_fingerprint, with_stable_item_ids,
}

abbrev matches_revision : Option ℕ → ℕ → Bool
matches_revision none revision = true
matches_revision (some expected) revision = expected == revision

abbrev matches_version : Option ℕ → Option ℕ → Bool
matches_version none active = true
matches_version (some expected) none = false
matches_version (some expected) (some active) = expected == active

-- `_ensure_expected`, before the rest of a node.
abbrev pub ensure_expected {ℓ} :
    {A : Type ℓ}
    → PlanSessionRecord
    → LifecycleResumeRequest
    → Result LifecycleError A
    → Result LifecycleError A
ensure_expected session request next =
    require (matches_revision request.expected_session_revision session.session_revision)
      (conflict "stale_revision")
      (require (matches_version request.expected_active_version_id session.active_version_id)
        (conflict "stale_version") next)

-- `_active_version`
abbrev pub active_version : PlanSessionRecord → Result LifecycleError PlanVersion
active_version session =
    and_then (or_raise session.active_version_id (action_error "plan_not_selected"))
      λ id. or_raise (lookup id session.versions) key_error

abbrev pub action_kind : LifecycleAction → String
action_kind LifecycleAction.accept_recommendation = "accept_recommendation"
action_kind (LifecycleAction.select_candidate id) = "select_candidate"
action_kind (LifecycleAction.lock key) = "lock"
action_kind (LifecycleAction.unlock key) = "unlock"
action_kind (LifecycleAction.edit operations) = "edit"
action_kind (LifecycleAction.edit_text text) = "edit_text"
action_kind (LifecycleAction.approve_preview id token) = "approve_preview"
action_kind (LifecycleAction.reject_preview id) = "reject_preview"
action_kind (LifecycleAction.clarify_requirement answer) = "clarify_requirement"
action_kind (LifecycleAction.clarify_edit id) = "clarify_edit"
action_kind LifecycleAction.refresh_weather = "refresh_weather"
action_kind (LifecycleAction.dismiss_weather_event id) = "dismiss_weather_event"

-- The status, the next revision and the receipt that a node leaves.
abbrev pub settled :
    PlanSessionRecord
    → LifecycleResumeRequest
    → PlanSessionStatus
    → Option ℕ
    → Option ℕ
    → PlanSessionRecord
settled session request status version preview = record session {
  status = status;
  session_revision = session.session_revision + 1;
  receipts =
      insert request.request_id
        (record {
          request_id = request.request_id;
          action_kind = action_kind request.action;
          resulting_revision = session.session_revision + 1;
          resulting_version_id = version;
          resulting_preview_id = preview;
        })
        session.receipts;
}

abbrev pub awaits_selection : PlanSessionStatus → Bool
awaits_selection PlanSessionStatus.awaiting_candidate_selection = true
awaits_selection _ = false

abbrev pub awaits_requirement : PlanSessionStatus → Bool
awaits_requirement PlanSessionStatus.needs_requirement_clarification = true
awaits_requirement _ = false

-- No plan is chosen yet.
abbrev pub has_no_plan : PlanSessionStatus → Bool
has_no_plan status = awaits_selection status || awaits_requirement status

abbrev pub is_editable : PlanSessionStatus → Bool
is_editable PlanSessionStatus.active = true
is_editable PlanSessionStatus.change_rejected = true
is_editable PlanSessionStatus.requires_new_plan = true
is_editable _ = false

abbrev pub awaits_approval : PlanSessionStatus → Bool
awaits_approval PlanSessionStatus.awaiting_change_approval = true
awaits_approval _ = false

abbrev pub needs_clarification : PlanSessionStatus → Bool
needs_clarification PlanSessionStatus.needs_edit_clarification = true
needs_clarification _ = false

abbrev pub is_valid_status : ValidationStatus → Bool
is_valid_status ValidationStatus.valid = true
is_valid_status ValidationStatus.valid_with_warnings = true
is_valid_status ValidationStatus.invalid = false

-- A candidate with a validation that is not invalid.
abbrev pub is_selectable : Option ValidationResult → Bool
is_selectable none = false
is_selectable (some result) = is_valid_status result.status
