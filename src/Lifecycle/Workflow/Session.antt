-- ===== src/Lifecycle/Workflow/Session.antt =====
-- lifecycle/service.py: `resume` of a session, which waits for the clarification of its requirements or
-- for an action, through the graph of lifecycle/workflow.py. The lock of the session is held, so a
-- request is one step; the graph's state is that of the one thread of the session. The replay of the
-- checkpoints by LangGraph, which keeps that state, is not modelled: a request that raises leaves it as
-- it was.
use travel_plan_agent.Common.{
  String, true, false, Option, none, some, List, [], ◌∷◌, str_eq, lookup, insert, string_eq, Result,
  ok, raise, and_then, require, Bool,
}
use travel_plan_agent.Common.Text.{Unicode}
use travel_plan_agent.Lifecycle.Models.{
  PlanSessionRecord, ActionReceipt, EditOperation, LifecycleAction, LifecycleResumeRequest,
  LifecycleError, conflict, action_error,
}
use travel_plan_agent.Lifecycle.Repository.{get, save}
use travel_plan_agent.Lifecycle.Workflow.{awaits_requirement}
use travel_plan_agent.Lifecycle.Workflow.Weather.{
  Stop, refused, lifted, AfterWeather, terminal, local_replan, dismiss_weather_event,
}
use travel_plan_agent.Lifecycle.Workflow.Weather.Refresh.{refresh_weather}
use travel_plan_agent.Lifecycle.Workflow.Selection.{select_candidate, change_lock}
use travel_plan_agent.Lifecycle.Workflow.Editing.{
  AfterImpact, stopped, go_on, parse_edit, apply_edit_clarification, analyze_impact,
}
use travel_plan_agent.Lifecycle.Workflow.Preview.{Surroundings, build_preview}
use travel_plan_agent.Lifecycle.Workflow.Approval.{approve_preview, reject_preview}
use travel_plan_agent.Lifecycle.Workflow.World.{
  Graph, Outside, Policy, Step, World, finished, resume_requirement,
}

-- The step of a node that is the last before the next interrupt.
abbrev pub interrupted : Outside → Step → Step
interrupted env (session, graph) = (session, record graph { interrupt_id = env.next_interrupt })

abbrev pub with_interrupt : Outside → Result LifecycleError Step → Result Stop Step
with_interrupt env (raise e) = raise (refused e)
with_interrupt env (ok step) = ok (interrupted env step)

-- An edit of the user is not an answer to an event.
abbrev pub by_user : Surroundings → Surroundings
by_user around = record around { trigger = none }

module _ ⦃u : Unicode⦄ (policy : Policy) where
  abbrev pub unpatched :
      Graph → Result LifecycleError PlanSessionRecord → Result LifecycleError Step
  unpatched graph (raise e) = raise e
  unpatched graph (ok session) = ok (session, graph)

  -- From `analyze_change_impact` on.
  abbrev pub after_impact :
      PlanSessionRecord
      → Graph
      → LifecycleResumeRequest
      → Surroundings
      → List EditOperation
      → AfterImpact
      → Result LifecycleError Step
  after_impact session graph request around patch (stopped session' round) =
      ok (session', record graph { edit_patch = patch; clarification_round = round })
  after_impact session graph request around patch (go_on grounded) =
      unpatched (record graph { edit_patch = grounded })
        (build_preview policy.digest policy.max_affected_days grounded around session request)

  abbrev pub edit_with :
      PlanSessionRecord
      → Graph
      → LifecycleResumeRequest
      → Surroundings
      → List EditOperation
      → Result LifecycleError Step
  edit_with session graph request around patch =
      and_then
        (analyze_impact policy.max_affected_days session request graph.clarification_round patch)
        (after_impact session graph request around patch)

  -- From the weather on.
  abbrev pub after_weather :
      Outside → PlanSessionRecord → Graph → LifecycleResumeRequest → AfterWeather → Result Stop Step
  after_weather env session graph request (terminal session') =
      with_interrupt env (ok (session', graph))
  after_weather env session graph request (local_replan patch trigger) =
      with_interrupt env
        (edit_with session graph request (record env.around { trigger = some trigger }) patch)

  -- `route_action`
  abbrev pub act :
      LifecycleAction
      → Outside
      → PlanSessionRecord
      → Graph
      → LifecycleResumeRequest
      → Result Stop Step
  act LifecycleAction.accept_recommendation env session graph request =
      with_interrupt env (unpatched graph (select_candidate policy.digest session request none))
  act (LifecycleAction.select_candidate id) env session graph request =
      with_interrupt env
        (unpatched graph (select_candidate policy.digest session request (some id)))
  act (LifecycleAction.lock key) env session graph request =
      with_interrupt env (unpatched graph (change_lock policy.digest true key session request))
  act (LifecycleAction.unlock key) env session graph request =
      with_interrupt env (unpatched graph (change_lock policy.digest false key session request))
  act (LifecycleAction.edit operations) env session graph request =
      with_interrupt env (
        parse_edit session request
          (edit_with session graph request (by_user env.around) operations))
  act (LifecycleAction.edit_text text) env session graph request = with_interrupt env (
      parse_edit session request
        (and_then (env.parse_text text) (edit_with session graph request (by_user env.around))))
  act (LifecycleAction.approve_preview id token) env session graph request =
      with_interrupt env (
        unpatched graph
          (approve_preview policy.digest policy.max_versions session request id token))
  act (LifecycleAction.reject_preview id) env session graph request =
      with_interrupt env (unpatched graph (reject_preview session request id))
  act (LifecycleAction.clarify_requirement answer) env session graph request =
      raise (refused (action_error "invalid_action"))
  act (LifecycleAction.clarify_edit id) env session graph request = with_interrupt env (
      and_then (apply_edit_clarification id graph.edit_patch session request)
        (edit_with session graph request (by_user env.around)))
  act LifecycleAction.refresh_weather env session graph request =
      and_then (refresh_weather policy.digest policy.weather env.weather_tools session request)
        (after_weather env session graph request)
  act (LifecycleAction.dismiss_weather_event id) env session graph request =
      with_interrupt env (unpatched graph (dismiss_weather_event id session request))

  abbrev pub carried_out :
      Outside → LifecycleResumeRequest → Graph → PlanSessionRecord → Bool → Result Stop Step
  carried_out env request graph session true = lifted (resume_requirement env session graph request)
  carried_out env request graph session false =
      require (str_eq request.interrupt_id graph.interrupt_id)
        (refused (conflict "stale_interrupt")) (act request.action env session graph request)

  -- A request whose receipt is there is answered from the session.
  abbrev pub fresh :
      Outside
      → LifecycleResumeRequest
      → World
      → PlanSessionRecord
      → Option ActionReceipt
      → Result LifecycleError (Unit {0}) × World
  fresh env request w session (some receipt) = (ok tt, w)
  fresh env request w session none =
      finished w session
        (carried_out env request w.graph session (awaits_requirement session.status))

  abbrev pub found_session :
      Outside
      → LifecycleResumeRequest
      → World
      → Result LifecycleError PlanSessionRecord
      → Result LifecycleError (Unit {0}) × World
  found_session env request w (raise e) = (raise e, w)
  found_session env request w (ok session) =
      fresh env request w session (lookup request.request_id session.receipts)

  unfoldable pub resume :
      String → Outside → LifecycleResumeRequest → World → Result LifecycleError (Unit {0}) × World
  unfolding lookup insert get save select_candidate change_lock analyze_impact build_preview
      approve_preview reject_preview apply_edit_clarification refresh_weather dismiss_weather_event
  resume session_id env request w = found_session env request w (get session_id w.sessions).0

  -- Requests one after the other; what they raise is answered, and the next one comes.
  unfoldable pub run_requests : String → List (Outside × LifecycleResumeRequest) → World → World
  unfolding resume
  run_requests session_id [] w = w
  run_requests session_id ((env, request) ∷ requests) w =
      run_requests session_id requests (resume session_id env request w).1
