-- ===== src/Lifecycle/Workflow/Approval.antt =====
-- lifecycle/workflow.py: `resolve_approval`. What the node writes into the session before it raises is lost with its copy of the session, so the mark of a stale
-- preview is not in the model.
use travel_plan_agent.Common.{
  ℕ, ◌+◌, String, Bool, false, Option, none, some, length, str_eq, ◌==◌, ltb, lookup, insert,
  nat_eq, string_eq, List, Result, ok, and_then, require, or_raise, ◌&&◌,
}
use travel_plan_agent.Lifecycle.Models.{
  PlanSessionStatus, PreviewStatus, PlanVersion, PlanPreview, PlanSessionRecord,
  LifecycleResumeRequest, LifecycleError, conflict, action_error, key_error,
}
use travel_plan_agent.Weather.Models.{WeatherEventStatus, WeatherEventReceipt}
use travel_plan_agent.Lifecycle.Fingerprints.{Digest}
use travel_plan_agent.Lifecycle.Workflow.{ensure_expected, settled, awaits_approval}

-- `session.previews[session.pending_preview_id]`
abbrev pub pending_preview : PlanSessionRecord → Result LifecycleError PlanPreview
pending_preview session =
    and_then (or_raise session.pending_preview_id key_error)
      λ id. or_raise (lookup id session.previews) key_error

-- The preview that the request is about, which must be the pending one.
abbrev pub on_pending :
    PlanSessionRecord
    → LifecycleResumeRequest
    → ℕ
    → (PlanPreview → Result LifecycleError PlanSessionRecord)
    → Result LifecycleError PlanSessionRecord
on_pending session request preview_id next = ensure_expected session request (
    require (awaits_approval session.status) (conflict "plan_session_conflict") (
      and_then (pending_preview session) λ preview.
        require (preview_id == preview.preview_id) (conflict "stale_preview") (next preview)))

abbrev pub with_preview : PlanSessionRecord → PlanPreview → PreviewStatus → PlanSessionRecord
with_preview session preview status = record session {
  previews = insert preview.preview_id (record preview { status = status }) session.previews;
}

abbrev change_receipt :
    (WeatherEventReceipt → WeatherEventReceipt)
    → Option String
    → List (String × WeatherEventReceipt)
    → List (String × WeatherEventReceipt)
change_receipt change none receipts = receipts
change_receipt change (some id) receipts = elim (lookup id receipts) [
  | none ↦ receipts
  | some r ↦ insert id (change r) receipts
]

-- The receipt of the event that a preview answers to, if it is there.
abbrev pub with_answer :
    PlanPreview
    → (WeatherEventReceipt → WeatherEventReceipt)
    → PlanSessionRecord
    → PlanSessionRecord
with_answer preview change session = record session {
  weather = record session.weather {
    weather_monitor = record session.weather.weather_monitor {
      event_receipts =
          change_receipt change preview.event_id session.weather.weather_monitor.event_receipts;
    };
  };
}

abbrev pub as_rejected : PlanPreview → WeatherEventReceipt → WeatherEventReceipt
as_rejected preview r = record r {
  status = WeatherEventStatus.rejected;
  resulting_preview_id = some preview.preview_id;
}

abbrev pub as_approved : PlanPreview → ℕ → WeatherEventReceipt → WeatherEventReceipt
as_approved preview number r = record r {
  status = WeatherEventStatus.approved;
  resulting_preview_id = some preview.preview_id;
  resulting_version_id = some number;
}

unfoldable pub reject_preview :
    PlanSessionRecord → LifecycleResumeRequest → ℕ → Result LifecycleError PlanSessionRecord
unfolding lookup insert
reject_preview session request preview_id = on_pending session request preview_id λ preview. ok (
    with_answer preview (as_rejected preview) (
      settled (with_preview session preview PreviewStatus.rejected) request PlanSessionStatus.active
        none (some preview.preview_id)))

abbrev pub is_base : Option ℕ → ℕ → Bool
is_base none base = false
is_base (some active) base = base == active

-- The preview stands on the active version and the current revision.
abbrev pub is_current : PlanSessionRecord → PlanPreview → Bool
is_current session preview =
    is_base session.active_version_id preview.base_version_id
    && preview.base_session_revision == session.session_revision

abbrev pub next_version : LifecycleResumeRequest → PlanPreview → ℕ → PlanVersion
next_version request preview number = record {
  number = number;
  parent_version_id = some preview.base_version_id;
  source_request_id = request.request_id;
  selected_candidate_id = preview.candidate.plan.id;
  candidate = preview.candidate;
  candidate_draft = preview.candidate_draft;
  planning_pois = preview.planning_pois;
}

abbrev pub approved :
    PlanSessionRecord → LifecycleResumeRequest → PlanPreview → ℕ → PlanSessionRecord
approved session request preview number =
    record (with_answer preview (as_approved preview number) (
      settled (with_preview session preview PreviewStatus.approved) request PlanSessionStatus.active
        (some number) (some preview.preview_id))) {
          versions = insert number (next_version request preview number) session.versions;
          active_version_id = some number;
        }

module _ (digest : Digest) (max_versions : ℕ) where
  unfoldable pub approve_preview :
      PlanSessionRecord
      → LifecycleResumeRequest
      → ℕ
      → String
      → Result LifecycleError PlanSessionRecord
  unfolding lookup insert
  approve_preview session request preview_id token =
      on_pending session request preview_id λ preview.
        require (str_eq (digest.approval_hash token) preview.approval_token_hash)
          (conflict "stale_approval_token")
          (require (is_current session preview) (conflict "stale_preview") (
            require (ltb (length session.versions) max_versions)
              (action_error "version_budget_exhausted")
              (ok (approved session request preview (length session.versions + 1)))))
