-- ===== src/Lifecycle/Workflow/Sound/Editing.antt =====
-- `analyze_impact` and `build_preview` keep a session sound.
use travel_plan_agent.Common.{
  ℕ, ◌+◌, ◌≡◌, refl, subst, Bool, true, false, Option, none, some, List, [], ◌∷◌, All, ◌&&◌, not,
  all, map, leb, lookup, insert, nat_eq, string_eq, length, Result, ok, raise, and_then-ok,
  or_raise, require-ok, arith, lookup-insert, beq_refl, if◌then◌else◌,
}
use travel_plan_agent.Common.Text.{Unicode}
use travel_plan_agent.Planning.Models.{PlanCandidate, CandidateDraft}
use travel_plan_agent.Planning.Validator.{ValidationResult, validate_candidate}
use travel_plan_agent.Lifecycle.Models.{
  PlanSessionStatus, LockKey, PlanLock, EditOperation, ImpactResult, PlanVersion, PlanPreview,
  PlanSessionRecord, LifecycleResumeRequest, LifecycleError, action_error, runtime_error,
  value_error, assertion_error,
}
use travel_plan_agent.Weather.Models.{WeatherRecords}
use travel_plan_agent.Weather.Persistence.{persist_weather_observation}
use travel_plan_agent.Lifecycle.Impact.{analyze_change_impact}
use travel_plan_agent.Lifecycle.Actions.{apply_edit_patch}
use travel_plan_agent.Lifecycle.Grounding.{ground_edit_patch}
use travel_plan_agent.Lifecycle.Fingerprints.{Digest}
use travel_plan_agent.Lifecycle.Workflow.{
  has_no_plan, awaits_approval, active_version, settled, is_valid_status,
}
use travel_plan_agent.Lifecycle.Workflow.Editing.{
  stopped, all_locks, is_none, is_ambiguity, with_impact, clarified, after_grounding,
  analyze_impact,
}
use travel_plan_agent.Lifecycle.Workflow.Preview.{
  Surroundings, Trigger, observation_of, with_preview_id, with_trigger, is_hard_valid,
  preserved_days, keeps_lock, preview_of, previewed, guarded, all_identified, materialized,
  build_preview,
}
use travel_plan_agent.Lifecycle.Workflow.Approval.{pending_preview}
use travel_plan_agent.Lifecycle.Workflow.Sound.{
  holds, IsApprovable, IsHeld, active_in, IsSound, Advances,
}
use travel_plan_agent.Lifecycle.Workflow.Sound.Locks.{guarded_fingerprint-holds}
use travel_plan_agent.Lifecycle.Workflow.Sound.Weather.{with_weather-IsSound, with_weather-Advances}
use travel_plan_agent.Lifecycle.Workflow.Sound.Selection.{ensure_expected-ok, settled_receipt}

-- What an event adds to a session with a preview are records of the weather.
with_trigger-weather :
    (trigger : Option Trigger) (valid : Bool) (preview_id : ℕ) (shown new : PlanSessionRecord)
    → with_trigger trigger valid preview_id shown ≡ ok new
    → (weather : WeatherRecords) × (record shown { weather = weather } ≡ new)
with_trigger-weather none valid preview_id shown new h = (shown.weather, ground (arith, h))
with_trigger-weather (some t) valid preview_id shown new h =
    let (weather, found, h1) =
      and_then-ok
        (with_preview_id t.event.event_id preview_id
          (persist_weather_observation t.max_events (observation_of t valid) shown.weather))
        _ h in
    (weather, ground (arith, h1))

module _ (digest : Digest) (max_versions : ℕ) (session : PlanSessionRecord)
    (request : LifecycleResumeRequest) (sound : IsSound digest max_versions session) where
  -- A session that only takes a status in which nothing is chosen or approved.
  rested :
      (status : PlanSessionStatus)
      → has_no_plan status ≡ false
      → awaits_approval status ≡ false
      → let new = settled session request status none none in
        IsSound digest max_versions new × Advances request session new
  rested status h k = (
    record {
      line = sound.line;
      head = sound.head;
      within = sound.within;
      unselected = λ e. absurd (cc (h, e));
      locked = sound.locked;
      pending = λ e. absurd (cc (k, e));
    },
    record {
      same_id = refl;
      revised = refl;
      noted = settled_receipt session request status none none;
      kept = λ n v e. e;
    },
  )

  module _ ⦃u : Unicode⦄ (max_affected_days : ℕ) where
    clarified-IsSound :
        (round : ℕ) (error : LifecycleError) (new : PlanSessionRecord) (round' : ℕ)
        → clarified max_affected_days session request round error ≡ ok (stopped new round')
        → IsSound digest max_versions new × Advances request session new
    clarified-IsSound round error new round' h =
        let (ambiguous, h1) = require-ok (is_ambiguity error) error _ h in
        let (early, h2) =
          require-ok (not (leb 2 round)) (action_error "edit_clarification_exhausted") _ h1 in
        let same : settled session request PlanSessionStatus.needs_edit_clarification none none
            ≡ new =
          ground (arith, h2) in
        rw (← same) (rested PlanSessionStatus.needs_edit_clarification refl refl)

    with_impact-IsSound :
        (round : ℕ) (patch : List EditOperation) (impact : ImpactResult) (new : PlanSessionRecord)
        (round' : ℕ)
        → with_impact max_affected_days session request round patch impact ≡ ok (stopped new round')
        → IsSound digest max_versions new × Advances request session new
    with_impact-IsSound round patch impact new round' h =
        let (free, h1) =
          require-ok (is_none impact.lock_conflicts) (action_error "lock_conflict") _ h in
        let same : settled session request PlanSessionStatus.requires_new_plan none none ≡ new =
          ground (arith, h1) in
        rw (← same) (rested PlanSessionStatus.requires_new_plan refl refl)

    after_grounding-IsSound :
        (round : ℕ) (version : PlanVersion) (r : Result LifecycleError (List EditOperation))
        (new : PlanSessionRecord) (round' : ℕ)
        → after_grounding max_affected_days session request round version r
          ≡ ok (stopped new round')
        → IsSound digest max_versions new × Advances request session new
    after_grounding-IsSound round version (raise error) new round' h =
        clarified-IsSound round error new round' h
    after_grounding-IsSound round version (ok patch) new round' h =
        with_impact-IsSound round patch
          (analyze_change_impact version.candidate.plan patch (all_locks session) max_affected_days)
          new round' h

    pub analyze_impact-IsSound :
        (round : ℕ) (patch : List EditOperation) (new : PlanSessionRecord) (round' : ℕ)
        → analyze_impact max_affected_days session request round patch ≡ ok (stopped new round')
        → IsSound digest max_versions new × Advances request session new
    unfolding analyze_impact
    analyze_impact-IsSound round patch new round' h =
        let (version, active, h1) = and_then-ok (active_version session) _ h in
        after_grounding-IsSound round version (ground_edit_patch version.candidate.plan patch) new
          round' h1

  -- The locks that the guard has passed hold of the new plan.
  guard_holds :
      (after : PlanCandidate) (o : Option PlanVersion) (locks : List (LockKey × PlanLock))
      → All (IsHeld digest o) locks
      → all (keeps_lock digest after) (map (λ (e : LockKey × PlanLock). e.1) locks) ≡ true
      → All
          (λ (e : LockKey × PlanLock).
            (e.1.lock_id ≡ e.0) × (holds digest after e.0 e.1.expected_fingerprint ≡ true))
          locks
  guard_holds after o [] a h = tt
  guard_holds after none (l ∷ locks) (here, others) h = absurd here
  guard_holds after (some v) ((key, lock) ∷ locks) (here, others) h =
      let kept : keeps_lock digest after lock ≡ true = ground (arith, h) in
      let later : all (keeps_lock digest after) (map (λ (e : LockKey × PlanLock). e.1) locks)
          ≡ true =
        ground (arith, h) in
      (
        (
          here.0,
          subst (λ k. holds digest after k lock.expected_fingerprint ≡ true) here.0
              (guarded_fingerprint-holds digest after lock.lock_id lock.expected_fingerprint kept),
        ),
        guard_holds after (some v) locks others later,
      )

  previewed-IsSound :
      (around : Surroundings) (version : PlanVersion) (impact : ImpactResult)
      (draft : CandidateDraft) (after : PlanCandidate) (result : ValidationResult)
      → all (keeps_lock digest after) (all_locks session) ≡ true
      → let p = preview_of digest session request around version impact draft after result in
        let new = previewed session request p (is_hard_valid result) in
        IsSound digest max_versions new × Advances request session new
  previewed-IsSound around version impact draft after result kept = (
    record {
      line = sound.line;
      head = sound.head;
      within = sound.within;
      unselected = λ e. absurd (never (is_hard_valid result) e);
      locked = sound.locked;
      pending = λ e q h.
          let same : p ≡ q = own q h in
          subst (IsApprovable digest new) same (
            approvable (is_hard_valid result) refl e,
            guard_holds after (active_in digest session) session.locks sound.locked kept,
          );
    },
    record {
      same_id = refl;
      revised = refl;
      noted =
          settled_receipt session request (status (is_hard_valid result)) none (some p.preview_id);
      kept = λ n v e. e;
    },
  )
    where
      p : PlanPreview
      p = preview_of digest session request around version impact draft after result

      status : Bool → PlanSessionStatus
      status valid =
          if valid
          then PlanSessionStatus.awaiting_change_approval
          else PlanSessionStatus.change_rejected

      new : PlanSessionRecord
      new = previewed session request p (is_hard_valid result)

      never : (b : Bool) → has_no_plan (status b) ≡ true → ⊥
      never true e = cc e
      never false e = cc e

      own : (q : PlanPreview) → pending_preview new ≡ ok q → p ≡ q
      own q h =
          let at : lookup p.preview_id (insert p.preview_id p session.previews) ≡ some p =
            rw (lookup-insert, beq_refl p.preview_id) in
          ground (arith, at, h)

      approvable :
          (b : Bool)
          → is_hard_valid result ≡ b
          → awaits_approval (status b) ≡ true
          → is_valid_status result.status ≡ true
      approvable true q e = ground (arith, q)
      approvable false q e = absurd (cc e)

  guarded-IsSound :
      (around : Surroundings) (version : PlanVersion) (impact : ImpactResult)
      (draft : CandidateDraft) (after : PlanCandidate) (result : ValidationResult)
      (new : PlanSessionRecord)
      → guarded digest session request around version impact draft after result ≡ ok new
      → IsSound digest max_versions new × Advances request session new
  guarded-IsSound around version impact draft after result new h =
      let (done, preserved, h1) =
        and_then-ok (preserved_days digest version.candidate.plan after impact.preserved_dates) _
          h in
      let (kept, h2) =
        require-ok (all (keeps_lock digest after) (all_locks session)) runtime_error _ h1 in
      let (identified, h3) =
        require-ok (all_identified version.candidate.plan && all_identified after) value_error _
          h2 in
      let same : previewed session request
            (preview_of digest session request around version impact draft after result)
            (is_hard_valid result)
          ≡ new =
        ground (arith, h3) in
      rw (← same) (previewed-IsSound around version impact draft after result kept)

  module _ ⦃u : Unicode⦄ (max_affected_days : ℕ) where
    pub build_preview-IsSound :
        (patch : List EditOperation) (around : Surroundings) (new : PlanSessionRecord)
        → build_preview digest max_affected_days patch around session request ≡ ok new
        → IsSound digest max_versions new × Advances request session new
    unfolding build_preview
    build_preview-IsSound patch around new h =
        let h1 = ensure_expected-ok session request _ h in
        let (snapshot, given, h2) = and_then-ok (or_raise session.snapshot assertion_error) _ h1 in
        let (version, active, h3) = and_then-ok (active_version session) _ h2 in
        let (edited, applied, h4) =
          and_then-ok
            (apply_edit_patch snapshot.trip around.planning_pois
              (digest.new_item_id request.request_id) version.candidate.plan version.candidate_draft
              patch)
            _ h3 in
        let after = materialized around edited in
        let result = validate_candidate snapshot.trip after around.planning_pois in
        let impact =
          analyze_change_impact version.candidate.plan patch (all_locks session)
            max_affected_days in
        let (shown, guards, h5) =
          and_then-ok (guarded digest session request around version impact edited.0 after result) _
            h4 in
        let (weather, same) =
          with_trigger-weather around.trigger (is_hard_valid result) (length session.previews + 1)
            shown new h5 in
        let (sound', advances) =
          guarded-IsSound around version impact edited.0 after result shown guards in
        rw (← same) (
          with_weather-IsSound digest max_versions weather shown sound',
          with_weather-Advances weather request session shown advances,
        )
