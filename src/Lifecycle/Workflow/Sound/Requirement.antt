-- ===== src/Lifecycle/Workflow/Sound/Requirement.antt =====
-- What the answer of the planning does to a session that waits for its requirements.
use travel_plan_agent.Common.{
  ◌≡◌, subst, true, false, none, some, nat_eq, string_eq, ok, and_then-ok, require-ok, arith, refl,
  or_raise, String, Option, [],
}
use travel_plan_agent.Lifecycle.Models.{
  PlanSessionRecord, LifecycleResumeRequest, conflict, action_error, PlanSessionStatus,
  PlanningSnapshot,
}
use travel_plan_agent.Weather.Models.{WeatherRecords}
use travel_plan_agent.Lifecycle.Workflow.{awaits_requirement, awaits_approval, settled}
use travel_plan_agent.Lifecycle.Workflow.World.{
  Graph, RequirementResponse, needs_clarification, completed, not_completed, Outside, Step,
  answer_of, is_open, answered_requirement, resume_requirement,
}
use travel_plan_agent.Lifecycle.Fingerprints.{Digest}
use travel_plan_agent.Common.{ℕ}
use travel_plan_agent.Lifecycle.Workflow.Sound.{IsSound, Advances}
use travel_plan_agent.Lifecycle.Workflow.Sound.Selection.{settled_receipt}

module _ (digest : Digest) (max_versions : ℕ) (session : PlanSessionRecord)
    (request : LifecycleResumeRequest) (graph : Graph)
    (sound : IsSound digest max_versions session) where
  abbrev pub Moved : PlanSessionRecord → Type 0
  Moved new = IsSound digest max_versions new × Advances request session new

  -- A session without a version that gets none.
  planless-Moves :
      (status : PlanSessionStatus) (snapshot : Option PlanningSnapshot) (interrupt : Option String)
      (weather : WeatherRecords)
      → session.versions ≡ []
      → session.locks ≡ []
      → awaits_approval status ≡ false
      → Moved (record (settled session request status none none) {
        snapshot = snapshot;
        external_interrupt = interrupt;
        weather = weather;
      })
  planless-Moves status snapshot interrupt weather no_versions no_locks other = (
    record {
      line = sound.line;
      head = sound.head;
      within = sound.within;
      unselected = λ e. (no_versions, no_locks);
      locked = sound.locked;
      pending = λ e. absurd (cc (other, e));
    },
    record {
      same_id = refl;
      revised = refl;
      noted = settled_receipt session request status none none;
      kept = λ n v e. e;
    },
  )

  -- The answer of the planning to a session that has no plan yet.
  answered_requirement-Moves :
      (env : Outside) (response : RequirementResponse) (step : Step)
      → awaits_requirement session.status ≡ true
      → answered_requirement env session graph request response ≡ ok step
      → Moved step.0
  answered_requirement-Moves env (needs_clarification interrupt) step awaits h =
      let (no_versions, no_locks) = sound.unselected (ground (arith, awaits)) in
      subst Moved (ground (arith, h)) (
        planless-Moves PlanSessionStatus.needs_requirement_clarification session.snapshot interrupt
          session.weather no_versions no_locks refl)
  answered_requirement-Moves env (completed snapshot days) step awaits h =
      let (no_versions, no_locks) = sound.unselected (ground (arith, awaits)) in
      subst Moved (ground (arith, h)) (
        planless-Moves PlanSessionStatus.awaiting_candidate_selection (some snapshot) none
          (record session.weather { trip_days = some days }) no_versions no_locks refl)
  answered_requirement-Moves env not_completed step awaits h = absurd (cc h)

  pub resume_requirement-Moves :
      (env : Outside) (step : Step)
      → awaits_requirement session.status ≡ true
      → resume_requirement env session graph request ≡ ok step
      → Moved step.0
  resume_requirement-Moves env step awaits h =
      let (answer, given, h1) =
        and_then-ok (or_raise (answer_of request.action) (action_error "invalid_action")) _ h in
      let (open_now, h2) =
        require-ok (is_open session.external_interrupt request.interrupt_id)
          (conflict "stale_interrupt") _ h1 in
      let (response, answered, h3) =
        and_then-ok (env.resume_natural_planning answer)
          (answered_requirement env session graph request) h2 in
      answered_requirement-Moves env response step awaits h3
