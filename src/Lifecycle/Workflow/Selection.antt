-- ===== src/Lifecycle/Workflow/Selection.antt =====
-- lifecycle/workflow.py: `select_candidate` and `change_lock`.
use travel_plan_agent.Common.{
  String, Bool, true, false, Option, none, some, List, str_eq, ◌==◌, find, lookup, insert, delete,
  nat_eq, string_eq, Result, ok, raise, and_then, require, or_raise,
}
use travel_plan_agent.Common.Text.{Unicode}
use travel_plan_agent.Planning.Models.{DayPlan, PlanCandidate, CandidateDraft}
use travel_plan_agent.Lifecycle.Models.{
  PlanSessionStatus, LockKey, PlanLock, CheckedPlan, PlanningSnapshot, PlanVersion,
  PlanSessionRecord, LifecycleResumeRequest, LifecycleError, conflict, action_error,
  assertion_error, lock_eq,
}
use travel_plan_agent.Lifecycle.Grounding.{DatedItem, items_with_id}
use travel_plan_agent.Lifecycle.Fingerprints.{
  Digest, item_fingerprint, day_fingerprint, with_stable_item_ids,
}
use travel_plan_agent.Lifecycle.Workflow.{
  ensure_expected, active_version, settled, awaits_selection, is_editable, is_selectable,
}

abbrev pub has_item_id : String → DatedItem → Bool
has_item_id id e = elim e.1.item_id [ none ↦ false | some j ↦ str_eq j id ]

abbrev pub unknown_target : LockKey → LifecycleError
unknown_target (LockKey.day_lock date) = action_error "unknown_day"
unknown_target (LockKey.item_lock id) = action_error "unknown_item"

abbrev pub new_lock : LifecycleResumeRequest → LockKey → String → PlanLock
new_lock request key fingerprint = record {
  lock_id = key;
  expected_fingerprint = fingerprint;
  created_by_request_id = request.request_id;
}

abbrev pub unlocked :
    PlanSessionRecord
    → LockKey
    → Option PlanLock
    → Result LifecycleError (List (LockKey × PlanLock))
unlocked session key none = raise (action_error "lock_not_found")
unlocked session key (some lock) = ok (delete key session.locks)

module _ (digest : Digest) where
  module _ ⦃u : Unicode⦄ where
    abbrev pub first_version :
        LifecycleResumeRequest → PlanningSnapshot → CheckedPlan → CandidateDraft → PlanVersion
    first_version request snapshot candidate draft = record {
      number = 1;
      parent_version_id = none;
      source_request_id = request.request_id;
      selected_candidate_id = candidate.plan.id;
      candidate = record candidate { plan = with_stable_item_ids digest candidate.plan };
      candidate_draft = draft;
      planning_pois = snapshot.planning_pois;
    }

    abbrev pub select_in :
        PlanSessionRecord
        → LifecycleResumeRequest
        → PlanningSnapshot
        → String
        → Result LifecycleError PlanSessionRecord
    select_in session request snapshot candidate_id =
        and_then
          (or_raise (find (λ (c : CheckedPlan). str_eq c.plan.id candidate_id) snapshot.candidates)
            (action_error "unknown_candidate"))
          λ candidate.
            require (is_selectable candidate.validation) (action_error "invalid_candidate") (
              and_then
                (or_raise
                  (find (λ (d : CandidateDraft). str_eq d.id candidate_id)
                    snapshot.candidate_drafts)
                  (action_error "missing_candidate_draft"))
                λ draft.
                  ok (record (settled session request PlanSessionStatus.active (some 1) none) {
                    versions =
                        insert 1 (first_version request snapshot candidate draft) session.versions;
                    active_version_id = some 1;
                  }))

    -- `select_candidate`, for the identifier that the action gives, or else the recommended one.
    unfoldable pub select_candidate :
        PlanSessionRecord
        → LifecycleResumeRequest
        → Option String
        → Result LifecycleError PlanSessionRecord
    unfolding lookup insert with_stable_item_ids
    select_candidate session request chosen = ensure_expected session request (
        require (awaits_selection session.status) (conflict "plan_session_conflict") (
          and_then (or_raise session.snapshot assertion_error) λ snapshot.
            select_in session request snapshot
              (elim chosen [ none ↦ snapshot.recommended_candidate_id | some id ↦ id ])))

  -- The fingerprint of what a lock is about, if it is in the plan.
  abbrev pub day_fingerprint_of : Option DayPlan → Option String
  day_fingerprint_of none = none
  day_fingerprint_of (some d) = some (day_fingerprint digest d)

  abbrev pub item_fingerprint_of : Option DatedItem → Option String
  item_fingerprint_of none = none
  item_fingerprint_of (some (date, i)) = some (item_fingerprint digest i date)

  unfoldable pub fingerprint_of : PlanCandidate → LockKey → Option String
  unfolding day_fingerprint item_fingerprint
  fingerprint_of candidate (LockKey.day_lock date) =
      day_fingerprint_of (find (λ (d : DayPlan). d.date == date) candidate.days)
  fingerprint_of candidate (LockKey.item_lock id) =
      item_fingerprint_of (find (has_item_id id) (items_with_id candidate.days))

  abbrev pub locked :
      PlanSessionRecord
      → LifecycleResumeRequest
      → LockKey
      → PlanVersion
      → Result LifecycleError (List (LockKey × PlanLock))
  locked session request key version =
      and_then (or_raise (fingerprint_of version.candidate.plan key) (unknown_target key))
        λ fingerprint. ok (insert key (new_lock request key fingerprint) session.locks)

  abbrev pub new_locks :
      Bool
      → PlanSessionRecord
      → LifecycleResumeRequest
      → LockKey
      → PlanVersion
      → Result LifecycleError (List (LockKey × PlanLock))
  new_locks true session request key version = locked session request key version
  new_locks false session request key version = unlocked session key (lookup key session.locks)

  -- `change_lock`: `adds` for the kind `lock`.
  unfoldable pub change_lock :
      Bool
      → LockKey
      → PlanSessionRecord
      → LifecycleResumeRequest
      → Result LifecycleError PlanSessionRecord
  unfolding lookup insert delete fingerprint_of
  change_lock adds key session request = ensure_expected session request (
      require (is_editable session.status) (conflict "plan_session_conflict") (
        and_then (active_version session) λ version.
          and_then (new_locks adds session request key version) λ locks.
            ok (record (settled session request PlanSessionStatus.active none none) {
              locks = locks;
            })))
