-- ===== src/Lifecycle/Workflow/Unlock.antt =====
-- `change_lock` of lifecycle/workflow.py: a lock that is set and taken away again.
use travel_plan_agent.Common.{
  ◌≡◌, refl, sym, subst, true, false, none, List, lookup, insert, ok, and_then-ok, require-ok,
  or_raise, arith, lookup-insert, beq_refl, delete-insert_new,
}
use travel_plan_agent.Lifecycle.Models.{
  PlanSessionStatus, LockKey, PlanLock, PlanVersion, PlanSessionRecord, LifecycleResumeRequest,
  conflict, lock_eq,
}
use travel_plan_agent.Lifecycle.Fingerprints.{Digest}
use travel_plan_agent.Lifecycle.Workflow.{
  matches_revision, matches_version, active_version, settled, is_editable,
}
use travel_plan_agent.Lifecycle.Workflow.Selection.{
  fingerprint_of, unknown_target, new_lock, new_locks, change_lock,
}
use travel_plan_agent.Lifecycle.Workflow.Sound.Selection.{ensure_expected-ok}

-- What a request expects of the session that it finds.
abbrev pub Expects : LifecycleResumeRequest → PlanSessionRecord → Type 0
Expects request session =
    (matches_revision request.expected_session_revision session.session_revision ≡ true)
    × (matches_version request.expected_active_version_id session.active_version_id ≡ true)

abbrev pub with_locks :
    PlanSessionRecord → LifecycleResumeRequest → List (LockKey × PlanLock) → PlanSessionRecord
with_locks session request locks =
    record (settled session request PlanSessionStatus.active none none) { locks = locks }

module _ (digest : Digest) (key : LockKey) (session : PlanSessionRecord)
    (request : LifecycleResumeRequest) where
  -- A lock that is set is one more entry.
  locks_ok :
      (new : PlanSessionRecord)
      → change_lock digest true key session request ≡ ok new
      → (lock : PlanLock) × (version : PlanVersion) × (active_version session ≡ ok version)
        × (new ≡ with_locks session request (insert key lock session.locks))
  unfolding change_lock
  locks_ok new h =
      let h1 = ensure_expected-ok session request _ h in
      let (editable, h2) =
        require-ok (is_editable session.status) (conflict "plan_session_conflict") _ h1 in
      let (version, active, h3) = and_then-ok (active_version session) _ h2 in
      let (locks, changed, h4) =
        and_then-ok (new_locks digest true session request key version) _ h3 in
      let (fingerprint, found, h5) =
        and_then-ok
          (or_raise (fingerprint_of digest version.candidate.plan key) (unknown_target key)) _
          changed in
      (new_lock request key fingerprint, version, active, ground (arith, h4, h5))

  unlocks :
      (request' : LifecycleResumeRequest) (lock : PlanLock) (version : PlanVersion)
      → active_version session ≡ ok version
      → lookup key session.locks ≡ none
      → let new = with_locks session request (insert key lock session.locks) in
        Expects request' new
        → change_lock digest false key new request' ≡ ok (with_locks new request' session.locks)
  unfolding change_lock
  unlocks request' lock version active fresh (revision, version') =
      rw
        (
          revision,
          version',
          active,
          lookup-insert,
          beq_refl key,
          delete-insert_new key lock session.locks fresh,
        )
        refl

  -- A lock that is set on a day or an item that had none can be taken away by a request that expects the
  -- session as it is then: the request succeeds, and the session has the locks that it had before, the
  -- same versions and previews, and the revision and the receipts of the two requests.
  pub change_lock_undone :
      (request' : LifecycleResumeRequest) (new : PlanSessionRecord)
      → lookup key session.locks ≡ none
      → change_lock digest true key session request ≡ ok new
      → Expects request' new
      → change_lock digest false key new request' ≡ ok (with_locks new request' session.locks)
  change_lock_undone request' new fresh h expects =
      let (lock, version, active, same) = locks_ok new h in
      subst
        (λ (n : PlanSessionRecord).
          Expects request' n
          → change_lock digest false key n request' ≡ ok (with_locks n request' session.locks))
        (sym same) (unlocks request' lock version active fresh) expects
