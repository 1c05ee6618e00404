-- ===== src/Lifecycle/Workflow/Sound/Approval.antt =====
-- `reject_preview` and `approve_preview` keep a session sound.
use travel_plan_agent.Common.{
  ℕ, ◌+◌, ◌≡◌, refl, sym, ap, ◌∙◌, String, true, Option, none, some, List, [], ◌∷◌, All, str_eq,
  ◌==◌, ==_iff, ltb, length, lookup, insert, nat_eq, Result, ok, and_then-ok, require-ok, arith,
  lookup-insert, beq_refl, length-insert, ltb→lt,
}
use travel_plan_agent.Lifecycle.Models.{
  PlanSessionStatus, PreviewStatus, LockKey, PlanLock, PlanVersion, PlanPreview, PlanSessionRecord,
  LifecycleResumeRequest, LifecycleError, conflict, action_error,
}
use travel_plan_agent.Lifecycle.Fingerprints.{Digest}
use travel_plan_agent.Lifecycle.Workflow.{awaits_approval, settled}
use travel_plan_agent.Lifecycle.Workflow.Approval.{
  with_answer, as_rejected, pending_preview, on_pending, with_preview, reject_preview, is_base,
  is_current, next_version, approved, approve_preview,
}
use travel_plan_agent.Lifecycle.Workflow.Sound.{
  newest, holds, IsHeld, IsSound, Advances, insert-IsLine, last_number-newest, lookup-next,
  newest-next,
}
use travel_plan_agent.Lifecycle.Workflow.Sound.Selection.{ensure_expected-ok, settled_receipt}

-- The preview that a request is about is the pending one.
on_pending-ok :
    (session : PlanSessionRecord) (request : LifecycleResumeRequest) (preview_id : ℕ)
    (next : PlanPreview → Result LifecycleError PlanSessionRecord) (new : PlanSessionRecord)
    → on_pending session request preview_id next ≡ ok new
    → (awaits_approval session.status ≡ true)
      × ((p : PlanPreview) × (pending_preview session ≡ ok p) × (next p ≡ ok new))
on_pending-ok session request preview_id next new h =
    let h1 = ensure_expected-ok session request _ h in
    let (awaits, h2) =
      require-ok (awaits_approval session.status) (conflict "plan_session_conflict") _ h1 in
    let (p, pending, h3) = and_then-ok (pending_preview session) _ h2 in
    let (same, h4) =
      require-ok (preview_id == p.preview_id) (conflict "stale_preview") (next p) h3 in
    (awaits, (p, pending, h4))

abbrev rejected : PlanSessionRecord → LifecycleResumeRequest → PlanPreview → PlanSessionRecord
rejected session request p = with_answer p (as_rejected p) (
    settled (with_preview session p PreviewStatus.rejected) request PlanSessionStatus.active none
      (some p.preview_id))

module _ (digest : Digest) (max_versions : ℕ) (session : PlanSessionRecord)
    (request : LifecycleResumeRequest) (sound : IsSound digest max_versions session) where
  pub reject_preview-IsSound :
      (preview_id : ℕ) (new : PlanSessionRecord)
      → reject_preview session request preview_id ≡ ok new
      → IsSound digest max_versions new × Advances request session new
  unfolding reject_preview
  reject_preview-IsSound preview_id new h =
      let (awaits, (p, pending, h1)) = on_pending-ok session request preview_id _ new h in
      let same : rejected session request p ≡ new = ground (arith, h1) in
      rw (← same) (
        record {
          line = sound.line;
          head = sound.head;
          within = sound.within;
          unselected = λ e. absurd (cc e);
          locked = sound.locked;
          pending = λ e. absurd (cc e);
        },
        record {
          same_id = refl;
          revised = refl;
          noted =
              settled_receipt (with_preview session p PreviewStatus.rejected) request
                PlanSessionStatus.active none (some p.preview_id);
          kept = λ n v e. e;
        },
      )

  -- The locks hold of the new version, since they hold of the preview.
  held_by_next :
      (v : PlanVersion) (locks : List (LockKey × PlanLock))
      → All
          (λ (e : LockKey × PlanLock).
            (e.1.lock_id ≡ e.0)
            × (holds digest v.candidate.plan e.0 e.1.expected_fingerprint ≡ true))
          locks
      → All (IsHeld digest (some v)) locks
  held_by_next v [] a = tt
  held_by_next v (l ∷ locks) (here, others) = (here, held_by_next v locks others)

  is_base-eq : (o : Option ℕ) (base : ℕ) → is_base o base ≡ true → o ≡ some base
  is_base-eq none base h = absurd (cc h)
  is_base-eq (some active) base h = ap some (sym ((==_iff base active).0 h))

  approved-IsSound :
      (p : PlanPreview)
      → awaits_approval session.status ≡ true
      → pending_preview session ≡ ok p
      → is_current session p ≡ true
      → ltb (length session.versions) max_versions ≡ true
      → let new = approved session request p (length session.versions + 1) in
        IsSound digest max_versions new × Advances request session new
  approved-IsSound p awaits pending current room =
      let number = length session.versions + 1 in
      let v = next_version request p number in
      let base : is_base session.active_version_id p.base_version_id ≡ true =
        ground (arith, current) in
      let (valid, held) = sound.pending awaits p pending in
      let parent : some p.base_version_id ≡ newest session.versions =
        sym (is_base-eq session.active_version_id p.base_version_id base) ∙ sound.head in
      let at : lookup number (insert number v session.versions) ≡ some v =
        rw (lookup-insert, beq_refl number) in
      (
        record {
          line =
              insert-IsLine 1 number none session.versions v sound.line (omega arith) refl
                (parent ∙ sym (last_number-newest session.versions)) valid;
          head = sym (newest-next session.versions v sound.line);
          within = omega (arith, length-insert number v session.versions, ltb→lt _ _ room);
          unselected = λ e. absurd (cc e);
          locked = rw at (held_by_next v session.locks held);
          pending = λ e. absurd (cc e);
        },
        record {
          same_id = refl;
          revised = refl;
          noted =
              settled_receipt (with_preview session p PreviewStatus.approved) request
                PlanSessionStatus.active (some number) (some p.preview_id);
          kept = λ n w e. lookup-next session.versions v w n sound.line e;
        },
      )

  pub approve_preview-IsSound :
      (preview_id : ℕ) (token : String) (new : PlanSessionRecord)
      → approve_preview digest max_versions session request preview_id token ≡ ok new
      → IsSound digest max_versions new × Advances request session new
  unfolding approve_preview
  approve_preview-IsSound preview_id token new h =
      let (awaits, (p, pending, h1)) = on_pending-ok session request preview_id _ new h in
      let (right, h2) =
        require-ok (str_eq (digest.approval_hash token) p.approval_token_hash)
          (conflict "stale_approval_token") _ h1 in
      let (current, h3) = require-ok (is_current session p) (conflict "stale_preview") _ h2 in
      let (room, h4) =
        require-ok (ltb (length session.versions) max_versions)
          (action_error "version_budget_exhausted") _ h3 in
      let same : approved session request p (length session.versions + 1) ≡ new =
        ground (arith, h4) in
      rw (← same) (approved-IsSound p awaits pending current room)
