-- ===== src/Lifecycle/Workflow/World.antt =====
-- lifecycle/service.py: what a request reads and changes, how a session is saved, and
-- `_resume_requirement`. The planning that it resumes is an argument.
use travel_plan_agent.Common.{
  ℕ, String, false, Option, none, some, List, [], str_eq, string_eq, Result, ok, raise, and_then,
  require, or_raise, Bool,
}
use travel_plan_agent.Lifecycle.Models.{
  PlanSessionStatus, PlanningSnapshot, PlanSessionRecord, EditOperation, LifecycleAction,
  LifecycleResumeRequest, LifecycleError, conflict, action_error,
}
use travel_plan_agent.Lifecycle.Repository.{Sessions, save}
use travel_plan_agent.Lifecycle.Fingerprints.{Digest}
use travel_plan_agent.Lifecycle.Workflow.{settled}
use travel_plan_agent.Lifecycle.Workflow.Weather.{
  Stop, refused, failed, WeatherTools, WeatherPolicy,
}
use travel_plan_agent.Lifecycle.Workflow.Preview.{Surroundings}

-- The part of `PlanLifecycleState` that later requests read, and the interrupt that is open.
pub record Graph : Type 0 where
  pub edit_patch : List EditOperation
  pub clarification_round : ℕ
  pub interrupt_id : String

-- What the planning answers to a clarification: the next interrupt, or its snapshot with the first and
-- the last day of the trip.
pub data RequirementResponse : Type 0 where
  needs_clarification : Option String → RequirementResponse
  completed : PlanningSnapshot → ℕ × ℕ → RequirementResponse
  not_completed : RequirementResponse

-- What one request gets from outside: the patch that a text means, what a preview is built from, the
-- tools of the weather, the answer of the planning, and the identifier of the next interrupt.
pub record Outside : Type 0 where
  pub parse_text : String → Result LifecycleError (List EditOperation)
  pub around : Surroundings
  pub weather_tools : WeatherTools
  pub resume_natural_planning : String → Result LifecycleError RequirementResponse
  pub next_interrupt : String

pub record Policy : Type 0 where
  pub digest : Digest
  pub max_affected_days : ℕ
  pub max_versions : ℕ
  pub weather : WeatherPolicy

pub record World : Type 0 where
  pub sessions : Sessions
  pub graph : Graph

abbrev pub Step : Type 0
Step = PlanSessionRecord × Graph

-- The session is saved with the revision that was read, before the answer or the error.
abbrev pub stored :
    World
    → Graph
    → Sessions
    → Result LifecycleError (Unit {0})
    → Result LifecycleError (Unit {0})
    → Result LifecycleError (Unit {0}) × World
stored w graph sessions answer (raise e) = (raise e, w)
stored w graph sessions answer (ok done) = (answer, record { sessions = sessions; graph = graph })

abbrev pub saved :
    World
    → PlanSessionRecord
    → Step
    → Result LifecycleError (Unit {0})
    → Result LifecycleError (Unit {0}) × World
saved w session (session', graph) answer =
    let (r, sessions) = save session' session.session_revision w.sessions in
    stored w graph sessions answer r

abbrev pub finished :
    World → PlanSessionRecord → Result Stop Step → Result LifecycleError (Unit {0}) × World
finished w session (raise (refused e)) = (raise e, w)
finished w session (raise (failed session' e)) = saved w session (session', w.graph) (raise e)
finished w session (ok step) = saved w session step (ok tt)

abbrev pub answer_of : LifecycleAction → Option String
answer_of (LifecycleAction.clarify_requirement answer) = some answer
answer_of _ = none

abbrev pub is_open : Option String → String → Bool
is_open none id = false
is_open (some interrupt) id = str_eq id interrupt

-- `initial_lifecycle_state` at its first interrupt.
abbrev initial_graph : Outside → Graph
initial_graph env = record {
  edit_patch = [];
  clarification_round = 0;
  interrupt_id = env.next_interrupt;
}

abbrev pub answered_requirement :
    Outside
    → PlanSessionRecord
    → Graph
    → LifecycleResumeRequest
    → RequirementResponse
    → Result LifecycleError Step
answered_requirement env session graph request (needs_clarification interrupt) = ok (
  record (settled session request PlanSessionStatus.needs_requirement_clarification none none) {
    external_interrupt = interrupt;
  },
  graph,
)
answered_requirement env session graph request (completed snapshot days) = ok (
  record (settled session request PlanSessionStatus.awaiting_candidate_selection none none) {
    snapshot = some snapshot;
    external_interrupt = none;
    weather = record session.weather { trip_days = some days };
  },
  initial_graph env,
)
answered_requirement env session graph request not_completed =
    raise (action_error "planning_not_completed")

-- `_resume_requirement`
abbrev pub resume_requirement :
    Outside → PlanSessionRecord → Graph → LifecycleResumeRequest → Result LifecycleError Step
resume_requirement env session graph request =
    and_then (or_raise (answer_of request.action) (action_error "invalid_action")) λ answer.
      require (is_open session.external_interrupt request.interrupt_id) (conflict "stale_interrupt")
        (and_then (env.resume_natural_planning answer)
          (answered_requirement env session graph request))
