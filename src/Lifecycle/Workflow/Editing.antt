-- ===== src/Lifecycle/Workflow/Editing.antt =====
-- lifecycle/workflow.py: `parse_edit`, `apply_edit_clarification`, and `analyze_impact`, for an
-- edit of the user.
use travel_plan_agent.Common.{
  ℕ, ◌+◌, String, Bool, true, false, Option, none, some, List, [], ◌∷◌, ◌||◌, not, map, leb, str_eq,
  if◌then◌else◌, contains, lookup, insert, nat_eq, string_eq, Result, ok, raise, and_then, require,
  or_raise,
}
use travel_plan_agent.Common.Text.{Unicode}
use travel_plan_agent.Lifecycle.Models.{
  PlanSessionStatus, LockKey, PlanLock, EditOperation, ImpactScope, ImpactResult, PlanVersion,
  PlanSessionRecord, LifecycleResumeRequest, LifecycleError, conflict, action_error,
}
use travel_plan_agent.Lifecycle.Impact.{analyze_change_impact}
use travel_plan_agent.Lifecycle.Grounding.{items_with_id, item_ids, ground_edit_patch}
use travel_plan_agent.Lifecycle.Workflow.{
  ensure_expected, active_version, settled, is_editable, needs_clarification,
}

-- The guard of `parse_edit`. The patch is that of the action, or what the model reads from its text.
abbrev pub parse_edit {ℓ} :
    {A : Type ℓ}
    → PlanSessionRecord
    → LifecycleResumeRequest
    → Result LifecycleError A
    → Result LifecycleError A
parse_edit session request next = ensure_expected session request (
    require (is_editable session.status) (conflict "plan_session_conflict")
      (and_then (active_version session) λ version. next))

abbrev fill_at :
    String
    → EditOperation
    → List EditOperation
    → Option String
    → Option (List EditOperation)
    → Option (List EditOperation)
fill_at id op ops none filled = some (record op { item_id = some id } ∷ ops)
fill_at id op ops (some item_id) none = none
fill_at id op ops (some item_id) (some filled) = some (op ∷ filled)

-- The first operation without an item takes the identifier.
abbrev pub fill_first : String → List EditOperation → Option (List EditOperation)
fill_first id [] = none
fill_first id (op ∷ ops) = fill_at id op ops op.item_id (fill_first id ops)

unfoldable pub apply_edit_clarification :
    String
    → List EditOperation
    → PlanSessionRecord
    → LifecycleResumeRequest
    → Result LifecycleError (List EditOperation)
unfolding contains lookup
apply_edit_clarification item_id patch session request = ensure_expected session request (
    require (needs_clarification session.status) (conflict "plan_session_conflict") (
      and_then (active_version session) λ version.
        require (contains item_id (item_ids (items_with_id version.candidate.plan.days)))
          (action_error "unknown_item")
          (or_raise (fill_first item_id patch) (action_error "clarification_not_needed"))))

-- What `analyze_impact` hands on: a session that is saved, with the number of clarifications, or a
-- grounded patch for `build_preview`.
pub data AfterImpact : Type 0 where
  stopped : PlanSessionRecord → ℕ → AfterImpact
  go_on : List EditOperation → AfterImpact

abbrev pub all_locks : PlanSessionRecord → List PlanLock
all_locks session = map (λ (e : LockKey × PlanLock). e.1) session.locks

abbrev pub needs_new_plan : ImpactScope → Bool
needs_new_plan ImpactScope.requires_new_plan = true
needs_new_plan _ = false

abbrev pub is_none {ℓ} : {A : Type ℓ} → List A → Bool
is_none [] = true
is_none (x ∷ xs) = false

abbrev pub is_ambiguity : LifecycleError → Bool
is_ambiguity (action_error code) = str_eq code "ambiguous_item" || str_eq code "unknown_item"
is_ambiguity _ = false

module _ (max_affected_days : ℕ) where
  abbrev pub with_impact :
      PlanSessionRecord
      → LifecycleResumeRequest
      → ℕ
      → List EditOperation
      → ImpactResult
      → Result LifecycleError AfterImpact
  with_impact session request round patch impact =
      require (is_none impact.lock_conflicts) (action_error "lock_conflict") (
        if needs_new_plan impact.scope
        then ok
            (stopped (settled session request PlanSessionStatus.requires_new_plan none none) round)
        else ok (go_on patch))

  abbrev pub clarified :
      PlanSessionRecord
      → LifecycleResumeRequest
      → ℕ
      → LifecycleError
      → Result LifecycleError AfterImpact
  clarified session request round error = require (is_ambiguity error) error (
      require (not (leb 2 round)) (action_error "edit_clarification_exhausted") (
        ok (
          stopped (settled session request PlanSessionStatus.needs_edit_clarification none none)
            (round + 1))))

  abbrev pub after_grounding :
      PlanSessionRecord
      → LifecycleResumeRequest
      → ℕ
      → PlanVersion
      → Result LifecycleError (List EditOperation)
      → Result LifecycleError AfterImpact
  after_grounding session request round version (raise error) =
      clarified session request round error
  after_grounding session request round version (ok patch) =
      with_impact session request round patch
        (analyze_change_impact version.candidate.plan patch (all_locks session) max_affected_days)

  unfoldable pub analyze_impact :
      ⦃u : Unicode⦄
      → PlanSessionRecord
      → LifecycleResumeRequest
      → ℕ
      → List EditOperation
      → Result LifecycleError AfterImpact
  unfolding lookup insert ground_edit_patch analyze_change_impact
  analyze_impact session request round patch = and_then (active_version session) λ version.
      after_grounding session request round version (ground_edit_patch version.candidate.plan patch)
