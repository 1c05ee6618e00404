-- ===== src/Lifecycle/Workflow/Sound/Selection.antt =====
-- `select_candidate` and `change_lock` keep a session sound.
use travel_plan_agent.Common.{
  ℕ, ◌+◌, ◌≤◌, ◌≡◌, refl, String, Bool, true, false, Option, none, some, List, All, lookup, insert,
  delete, nat_eq, string_eq, Result, ok, or_raise, and_then-ok, or_raise-ok, require-ok, arith,
  lookup-insert, beq_refl, find, str_eq,
}
use travel_plan_agent.Common.Text.{Unicode}
use travel_plan_agent.Common.Dict.Unique.{All-insert, All-delete}
use travel_plan_agent.Planning.Models.{CandidateDraft}
use travel_plan_agent.Lifecycle.Models.{
  PlanSessionStatus, LockKey, PlanLock, CheckedPlan, PlanningSnapshot, PlanVersion, ActionReceipt,
  PlanSessionRecord, LifecycleResumeRequest, LifecycleError, conflict, action_error,
  assertion_error, lock_eq, key_error,
}
use travel_plan_agent.Lifecycle.Fingerprints.{Digest}
use travel_plan_agent.Lifecycle.Workflow.{
  matches_revision, matches_version, ensure_expected, active_version, settled, awaits_selection,
  is_editable, is_selectable, action_kind,
}
use travel_plan_agent.Lifecycle.Workflow.Selection.{
  first_version, select_candidate, fingerprint_of, unknown_target, new_lock, locked, unlocked,
  new_locks, change_lock,
}
use travel_plan_agent.Lifecycle.Workflow.Sound.{IsHeld, active_in, IsSound, Advances}
use travel_plan_agent.Lifecycle.Workflow.Sound.Locks.{fingerprint_of-holds}

-- The inversion of the guard.
pub ensure_expected-ok {ℓ} :
    {A : Type ℓ} (session : PlanSessionRecord) (request : LifecycleResumeRequest)
    (next : Result LifecycleError A) {a : A}
    → ensure_expected session request next ≡ ok a
    → next ≡ ok a
ensure_expected-ok session request next h =
    let (revision, h1) =
      require-ok (matches_revision request.expected_session_revision session.session_revision)
        (conflict "stale_revision") _ h in
    (require-ok (matches_version request.expected_active_version_id session.active_version_id)
      (conflict "stale_version") next h1).1

-- The receipt that a node leaves.
pub settled_receipt :
    (session : PlanSessionRecord) (request : LifecycleResumeRequest) (status : PlanSessionStatus)
    (version preview : Option ℕ)
    → (r : ActionReceipt) × (lookup request.request_id
          (settled session request status version preview).receipts
        ≡ some r)
      × (r.resulting_revision ≡ session.session_revision + 1)
settled_receipt session request status version preview = (
  record {
    request_id = request.request_id;
    action_kind = action_kind request.action;
    resulting_revision = session.session_revision + 1;
    resulting_version_id = version;
    resulting_preview_id = preview;
  },
  rw (lookup-insert, beq_refl request.request_id),
  refl,
)

pub active_version-in :
    (digest : Digest) (session : PlanSessionRecord) (version : PlanVersion)
    → active_version session ≡ ok version
    → active_in digest session ≡ some version
active_version-in digest session version h =
    let (id, active, h1) =
      and_then-ok (or_raise session.active_version_id (action_error "plan_not_selected")) _ h in
    let at = or_raise-ok session.active_version_id (action_error "plan_not_selected") active in
    rw at (or_raise-ok (lookup id session.versions) key_error h1)

module _ (digest : Digest) (max_versions : ℕ) where
  module _ ⦃u : Unicode⦄ (session : PlanSessionRecord) (request : LifecycleResumeRequest)
      (sound : IsSound digest max_versions session) where
    selected :
        (snapshot : PlanningSnapshot) (candidate : CheckedPlan) (draft : CandidateDraft)
        (new : PlanSessionRecord)
        → 1 ≤ max_versions
        → awaits_selection session.status ≡ true
        → is_selectable candidate.validation ≡ true
        → record (settled session request PlanSessionStatus.active (some 1) none) {
          versions =
              insert 1 (first_version digest request snapshot candidate draft) session.versions;
          active_version_id = some 1;
        }
          ≡ new
        → IsSound digest max_versions new × Advances request session new
    unfolding insert lookup
    selected snapshot candidate draft new room awaits valid h =
        let (no_versions, no_locks) = sound.unselected (ground (arith, awaits)) in
        rw (← h) (
          record {
            line = rw no_versions (refl, refl, refl, valid, tt);
            head = rw no_versions;
            within = rw no_versions room;
            unselected = λ e. absurd (cc e);
            locked = rw no_locks tt;
            pending = λ e. absurd (cc e);
          },
          record {
            same_id = refl;
            revised = refl;
            noted = settled_receipt session request PlanSessionStatus.active (some 1) none;
            kept = λ n v e. absurd (cc (rw no_versions at e));
          },
        )

    pub select_candidate-IsSound :
        (chosen : Option String) (new : PlanSessionRecord)
        → 1 ≤ max_versions
        → select_candidate digest session request chosen ≡ ok new
        → IsSound digest max_versions new × Advances request session new
    unfolding select_candidate
    select_candidate-IsSound chosen new room h =
        let h1 = ensure_expected-ok session request _ h in
        let (awaits, h2) =
          require-ok (awaits_selection session.status) (conflict "plan_session_conflict") _ h1 in
        let (snapshot, given, h3) = and_then-ok (or_raise session.snapshot assertion_error) _ h2 in
        let id : String = elim chosen [ none ↦ snapshot.recommended_candidate_id | some id ↦ id ] in
        let (candidate, found, h4) =
          and_then-ok
            (or_raise (find (λ (c : CheckedPlan). str_eq c.plan.id id) snapshot.candidates)
              (action_error "unknown_candidate"))
            _ h3 in
        let (valid, h5) =
          require-ok (is_selectable candidate.validation) (action_error "invalid_candidate") _ h4 in
        let (draft, drafted, h6) =
          and_then-ok
            (or_raise (find (λ (d : CandidateDraft). str_eq d.id id) snapshot.candidate_drafts)
              (action_error "missing_candidate_draft"))
            _ h5 in
        selected snapshot candidate draft new room awaits valid (ground (arith, h6))

  module _ (session : PlanSessionRecord) (request : LifecycleResumeRequest)
      (sound : IsSound digest max_versions session) where
    -- Other locks, of which each one holds.
    relocked :
        (locks : List (LockKey × PlanLock)) (new : PlanSessionRecord)
        → is_editable session.status ≡ true
        → All (IsHeld digest (active_in digest session)) locks
        → record (settled session request PlanSessionStatus.active none none) { locks = locks }
          ≡ new
        → IsSound digest max_versions new × Advances request session new
    relocked locks new editable held h = rw (← h) (
      record {
        line = sound.line;
        head = sound.head;
        within = sound.within;
        unselected = λ e. absurd (cc e);
        locked = held;
        pending = λ e. absurd (cc e);
      },
      record {
        same_id = refl;
        revised = refl;
        noted = settled_receipt session request PlanSessionStatus.active none none;
        kept = λ n v e. e;
      },
    )

    locked-IsSound :
        (version : PlanVersion) (key : LockKey) (locks : List (LockKey × PlanLock))
        → active_in digest session ≡ some version
        → locked digest session request key version ≡ ok locks
        → All (IsHeld digest (active_in digest session)) locks
    locked-IsSound version key locks active h =
        let (fingerprint, found, h1) =
          and_then-ok
            (or_raise (fingerprint_of digest version.candidate.plan key) (unknown_target key)) _
            h in
        let at =
          or_raise-ok (fingerprint_of digest version.candidate.plan key) (unknown_target key)
            found in
        let lock = new_lock request key fingerprint in
        let same : insert key lock session.locks ≡ locks = ground (arith, h1) in
        let held : IsHeld digest (active_in digest session) (key, lock) =
          rw active (refl, fingerprint_of-holds digest version.candidate.plan key fingerprint at) in
        rw (← same) (
          All-insert (IsHeld digest (active_in digest session)) key lock session.locks sound.locked
            held)

    unlocked-IsSound :
        (key : LockKey) (o : Option PlanLock) (locks : List (LockKey × PlanLock))
        → unlocked session key o ≡ ok locks
        → All (IsHeld digest (active_in digest session)) locks
    unlocked-IsSound key none locks h = absurd (cc h)
    unlocked-IsSound key (some lock) locks h =
        let same : delete key session.locks ≡ locks = ground (arith, h) in
        rw (← same)
          (All-delete (IsHeld digest (active_in digest session)) key session.locks sound.locked)

    new_locks-IsSound :
        (adds : Bool) (version : PlanVersion) (key : LockKey) (locks : List (LockKey × PlanLock))
        → active_in digest session ≡ some version
        → new_locks digest adds session request key version ≡ ok locks
        → All (IsHeld digest (active_in digest session)) locks
    new_locks-IsSound true version key locks active h = locked-IsSound version key locks active h
    new_locks-IsSound false version key locks active h =
        unlocked-IsSound key (lookup key session.locks) locks h

    pub change_lock-IsSound :
        (adds : Bool) (key : LockKey) (new : PlanSessionRecord)
        → change_lock digest adds key session request ≡ ok new
        → IsSound digest max_versions new × Advances request session new
    unfolding change_lock
    change_lock-IsSound adds key new h =
        let h1 = ensure_expected-ok session request _ h in
        let (editable, h2) =
          require-ok (is_editable session.status) (conflict "plan_session_conflict") _ h1 in
        let (version, active, h3) = and_then-ok (active_version session) _ h2 in
        let (locks, changed, h4) =
          and_then-ok (new_locks digest adds session request key version) _ h3 in
        relocked locks new editable
          (new_locks-IsSound adds version key locks
            (active_version-in digest session version active) changed)
          (ground (arith, h4))
