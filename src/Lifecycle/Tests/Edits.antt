-- ===== src/Lifecycle/Tests/Edits.antt =====
-- The edits, the locks and the writes of the session.
use travel_plan_agent.Common.{
  ℕ, ◌+◌, ◌≤◌, ◌≡◌, refl, String, true, false, none, some, List, [], ◌∷◌, map, lookup, insert, ok,
}
use travel_plan_agent.Common.Text.{occurs, normalize}
use travel_plan_agent.Planning.Models.{PlanCandidate, CandidateDraft}
use travel_plan_agent.Planning.Repair.{is_required_name}
use travel_plan_agent.Planning.Repair.Apply.{day_pois}
use travel_plan_agent.Lifecycle.Models.{
  PlanSessionStatus, LockKey, PlanVersion, PlanSessionRecord, LifecycleAction,
  LifecycleResumeRequest,
}
use travel_plan_agent.Lifecycle.Repository.{run_saves, revision_of, run_saves-revision_of}
use travel_plan_agent.Lifecycle.Impact.{analyze_change_impact}
use travel_plan_agent.Lifecycle.Actions.{candidate_items, apply_edit_patch}
use travel_plan_agent.Lifecycle.Actions.Days.{times}
use travel_plan_agent.Lifecycle.Actions.Protected.{apply_edit_patch-times}
use travel_plan_agent.Lifecycle.Actions.Unaffected.{outside, apply_edit_patch-unaffected}
use travel_plan_agent.Lifecycle.Workflow.Selection.{fingerprint_of, change_lock}
use travel_plan_agent.Lifecycle.Workflow.Unlock.{with_locks, change_lock_undone}
use travel_plan_agent.Lifecycle.Tests.{
  simple, item, day_with, before, pois, trip, draft, digest, new_session, start, asking, reorder,
}

-- The plan with the identifiers that the selection gives.
abbrev active : PlanCandidate
active = record before {
  days =
      day_with 10 (
        record (item "zoo" 900_000 907_200) { item_id = some "zoo" }
        ∷ record (item "park" 910_000 915_000) { item_id = some "park" }
        ∷ [])
      ∷ day_with 11 (record (item "lake" 990_000 995_000) { item_id = some "lake" } ∷ [])
      ∷ [];
}

abbrev reordered : CandidateDraft × List (String × String)
reordered = (
  record {
    id = "c";
    days =
        record { date = 10; poi_ids = "park" ∷ "zoo" ∷ [] }
        ∷ record { date = 11; poi_ids = "lake" ∷ [] }
        ∷ [];
  },
  ("zoo", "zoo") ∷ ("park", "park") ∷ ("lake", "lake") ∷ [],
)

reorders : apply_edit_patch trip pois (λ n. "new") active draft (reorder ∷ []) ≡ ok reordered
unfolding apply_edit_patch lookup insert occurs normalize is_required_name candidate_items day_pois
reorders = refl

apply_edit_patch-times_example : times "zoo" draft.days ≤ times "zoo" reordered.0.days
unfolding candidate_items lookup insert is_required_name occurs normalize
apply_edit_patch-times_example =
    apply_edit_patch-times trip "zoo" pois (λ n. "new") active draft (reorder ∷ []) reordered
      (refl, (refl, tt)) ((λ e. refl), ((λ e. absurd (cc e)), ((λ e. absurd (cc e)), tt))) reorders

apply_edit_patch-unaffected_example :
    let affected = (analyze_change_impact active (reorder ∷ []) [] 2).affected_dates in
    map (outside affected) reordered.0.days ≡ map (outside affected) draft.days
unfolding lookup
apply_edit_patch-unaffected_example =
    apply_edit_patch-unaffected trip pois (λ n. "new") active draft (reorder ∷ []) [] 2 reordered
      (refl, (refl, tt)) reorders

abbrev first : PlanVersion
first = record {
  number = 1;
  parent_version_id = none;
  source_request_id = "r1";
  selected_candidate_id = "c";
  candidate = record { plan = active; validation = none };
  candidate_draft = draft;
  planning_pois = pois;
}

abbrev chosen : PlanSessionRecord
chosen = record new_session {
  status = PlanSessionStatus.active;
  active_version_id = some 1;
  versions = (1, first) ∷ [];
}

abbrev locking : LifecycleResumeRequest
locking = asking "i1" "r2" (LifecycleAction.lock (LockKey.item_lock "park"))

abbrev unlocking : LifecycleResumeRequest
unlocking = asking "i2" "r3" (LifecycleAction.unlock (LockKey.item_lock "park"))

abbrev locked_park : PlanSessionRecord
locked_park = with_locks chosen locking (
    (
      LockKey.item_lock "park",
      record {
        lock_id = LockKey.item_lock "park";
        expected_fingerprint = "park";
        created_by_request_id = "r2";
      },
    )
    ∷ [])

locks_park : change_lock digest true (LockKey.item_lock "park") chosen locking ≡ ok locked_park
unfolding change_lock lookup insert fingerprint_of
locks_park = refl

change_lock_undone_example :
    change_lock digest false (LockKey.item_lock "park") locked_park unlocking
    ≡ ok (with_locks locked_park unlocking [])
unfolding lookup
change_lock_undone_example =
    change_lock_undone digest (LockKey.item_lock "park") chosen locking unlocking locked_park refl
      locks_park (refl, refl)

abbrev at_revision : ℕ → PlanSessionRecord
at_revision n = record new_session { session_revision = n }

-- Two writers have read revision 0; the second write is lost.
run_saves-revision_of_example :
    revision_of "s" (run_saves ((at_revision 1, 0) ∷ (at_revision 1, 0) ∷ []) 0 start.sessions).1
      + 0
    ≡ revision_of "s" start.sessions
      + (run_saves ((at_revision 1, 0) ∷ (at_revision 1, 0) ∷ []) 0 start.sessions).0
run_saves-revision_of_example =
    run_saves-revision_of "s" ((at_revision 1, 0) ∷ (at_revision 1, 0) ∷ []) 0 start.sessions
      ((refl, refl), ((refl, refl), tt))
