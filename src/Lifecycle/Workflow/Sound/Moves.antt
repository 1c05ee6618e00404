-- ===== src/Lifecycle/Workflow/Sound/Moves.antt =====
-- What each action does to a session that is sound.
use travel_plan_agent.Common.{
  ◌≤◌, ◌≡◌, subst, true, false, none, some, List, nat_eq, string_eq, Result, ok, raise, and_then-ok,
  require-ok, arith, refl, Bool, and_then, require, str_eq,
}
use travel_plan_agent.Common.Text.{Unicode}
use travel_plan_agent.Lifecycle.Models.{
  EditOperation, PlanSessionRecord, LifecycleAction, LifecycleResumeRequest, LifecycleError,
  conflict,
}
use travel_plan_agent.Lifecycle.Workflow.{is_editable, active_version, awaits_requirement}
use travel_plan_agent.Lifecycle.Workflow.Selection.{select_candidate, change_lock}
use travel_plan_agent.Lifecycle.Workflow.Editing.{
  AfterImpact, stopped, go_on, parse_edit, apply_edit_clarification, analyze_impact,
}
use travel_plan_agent.Lifecycle.Workflow.Preview.{Surroundings, build_preview}
use travel_plan_agent.Lifecycle.Workflow.Approval.{approve_preview, reject_preview}
use travel_plan_agent.Lifecycle.Workflow.Session.{
  with_interrupt, by_user, unpatched, after_impact, edit_with, after_weather, act, carried_out,
}
use travel_plan_agent.Lifecycle.Workflow.World.{Graph, Outside, Policy, Step, resume_requirement}
use travel_plan_agent.Lifecycle.Workflow.Weather.{
  Stop, refused, lifted, AfterWeather, terminal, local_replan, dismiss_weather_event,
}
use travel_plan_agent.Lifecycle.Workflow.Sound.Weather.{
  Halts, active-IsSound, dismiss_weather_event-IsSound,
}
use travel_plan_agent.Lifecycle.Workflow.Sound.Refresh.{Refreshed, refresh_weather-Refreshed}
use travel_plan_agent.Lifecycle.Workflow.Sound.{IsSound, Advances}
use travel_plan_agent.Lifecycle.Workflow.Sound.Selection.{
  ensure_expected-ok, select_candidate-IsSound, change_lock-IsSound,
}
use travel_plan_agent.Lifecycle.Workflow.Sound.Editing.{
  analyze_impact-IsSound, build_preview-IsSound,
}
use travel_plan_agent.Lifecycle.Workflow.Sound.Approval.{
  reject_preview-IsSound, approve_preview-IsSound,
}
use travel_plan_agent.Lifecycle.Workflow.Sound.Requirement.{resume_requirement-Moves}

module _ ⦃u : Unicode⦄ (policy : Policy) (room : 1 ≤ policy.max_versions) where
  -- What a request does to a session that it changes.
  abbrev pub Moves : LifecycleResumeRequest → PlanSessionRecord → PlanSessionRecord → Type 0
  Moves request old new = IsSound policy.digest policy.max_versions new × Advances request old new

  module _ (session : PlanSessionRecord) (request : LifecycleResumeRequest) (graph : Graph)
      (sound : IsSound policy.digest policy.max_versions session) where
    unpatched-Moves :
        (g : Graph) (r : Result LifecycleError PlanSessionRecord) (step : Step)
        → ((new : PlanSessionRecord) → r ≡ ok new → Moves request session new)
        → unpatched policy g r ≡ ok step
        → Moves request session step.0
    unpatched-Moves g (raise e) step k h = absurd (cc h)
    unpatched-Moves g (ok new) step k h = k step.0 (ground (arith, h))

    after_impact-Moves :
        (around : Surroundings) (patch : List EditOperation) (impact : AfterImpact) (step : Step)
        → analyze_impact policy.max_affected_days session request graph.clarification_round patch
          ≡ ok impact
        → after_impact policy session graph request around patch impact ≡ ok step
        → Moves request session step.0
    after_impact-Moves around patch (stopped new round) step analysed h =
        let same : new ≡ step.0 = ground (arith, h) in
        subst (Moves request session) same (
          analyze_impact-IsSound policy.digest policy.max_versions session request sound
            policy.max_affected_days graph.clarification_round patch new round analysed)
    after_impact-Moves around patch (go_on grounded) step analysed h =
        unpatched-Moves (record graph { edit_patch = grounded })
          (build_preview policy.digest policy.max_affected_days grounded around session request)
          step
          (λ new.
            build_preview-IsSound policy.digest policy.max_versions session request sound
              policy.max_affected_days grounded around new)
          h

    edit_with-Moves :
        (around : Surroundings) (patch : List EditOperation) (step : Step)
        → edit_with policy session graph request around patch ≡ ok step
        → Moves request session step.0
    edit_with-Moves around patch step h =
        let (impact, analysed, h1) =
          and_then-ok
            (analyze_impact policy.max_affected_days session request graph.clarification_round
              patch)
            _ h in
        after_impact-Moves around patch impact step analysed h1

    parse_edit-ok :
        (next : Result LifecycleError Step) (step : Step)
        → parse_edit session request next ≡ ok step
        → next ≡ ok step
    parse_edit-ok next step h =
        let h1 = ensure_expected-ok session request _ h in
        let (editable, h2) =
          require-ok (is_editable session.status) (conflict "plan_session_conflict") _ h1 in
        let (version, active, h3) = and_then-ok (active_version session) _ h2 in h3

    -- What a request comes to: a session that it has changed, or one that it leaves as it was or saves
    -- before it raises.
    abbrev pub Carried : Result Stop Step → Type 0
    Carried (raise s) = Halts session s
    Carried (ok step) = Moves request session step.0

    with_interrupt-Carried :
        (env : Outside) (r : Result LifecycleError Step)
        → ((step : Step) → r ≡ ok step → Moves request session step.0)
        → Carried (with_interrupt env r)
    with_interrupt-Carried env (raise e) k = tt
    with_interrupt-Carried env (ok step) k = k step refl

    after_weather-Carried :
        (env : Outside) (r : Result Stop AfterWeather)
        → Refreshed policy.digest policy.weather env.weather_tools session request r
        → Carried (and_then r (after_weather policy env session graph request))
    after_weather-Carried env (raise s) halts = halts
    after_weather-Carried env (ok (terminal new)) (weather, same) =
        subst (Moves request session) same
          (active-IsSound policy.digest policy.max_versions weather request session sound)
    after_weather-Carried env (ok (local_replan patch trigger)) tt =
        with_interrupt-Carried env _
          (edit_with-Moves (record env.around { trigger = some trigger }) patch)

    act-Carried :
        (action : LifecycleAction) (env : Outside)
        → Carried (act policy action env session graph request)
    act-Carried LifecycleAction.accept_recommendation env = with_interrupt-Carried env _ λ step h.
        unpatched-Moves graph (select_candidate policy.digest session request none) step
          (λ new.
            select_candidate-IsSound policy.digest policy.max_versions session request sound none
              new room)
          h
    act-Carried (LifecycleAction.select_candidate id) env = with_interrupt-Carried env _ λ step h.
        unpatched-Moves graph (select_candidate policy.digest session request (some id)) step
          (λ new.
            select_candidate-IsSound policy.digest policy.max_versions session request sound
              (some id) new room)
          h
    act-Carried (LifecycleAction.lock key) env = with_interrupt-Carried env _ λ step h.
        unpatched-Moves graph (change_lock policy.digest true key session request) step
          (change_lock-IsSound policy.digest policy.max_versions session request sound true key) h
    act-Carried (LifecycleAction.unlock key) env = with_interrupt-Carried env _ λ step h.
        unpatched-Moves graph (change_lock policy.digest false key session request) step
          (change_lock-IsSound policy.digest policy.max_versions session request sound false key) h
    act-Carried (LifecycleAction.edit operations) env =
        with_interrupt-Carried env _
          λ step h. edit_with-Moves (by_user env.around) operations step (parse_edit-ok _ step h)
    act-Carried (LifecycleAction.edit_text text) env = with_interrupt-Carried env _ λ step h.
        let (patch, read, h1) = and_then-ok (env.parse_text text) _ (parse_edit-ok _ step h) in
        edit_with-Moves (by_user env.around) patch step h1
    act-Carried (LifecycleAction.approve_preview id token) env =
        with_interrupt-Carried env _ λ step h.
          unpatched-Moves graph
            (approve_preview policy.digest policy.max_versions session request id token) step
            (approve_preview-IsSound policy.digest policy.max_versions session request sound id
              token)
            h
    act-Carried (LifecycleAction.reject_preview id) env = with_interrupt-Carried env _ λ step h.
        unpatched-Moves graph (reject_preview session request id) step
          (reject_preview-IsSound policy.digest policy.max_versions session request sound id) h
    act-Carried (LifecycleAction.clarify_requirement answer) env = tt
    act-Carried (LifecycleAction.clarify_edit id) env = with_interrupt-Carried env _ λ step h.
        let (patch, filled, h1) =
          and_then-ok (apply_edit_clarification id graph.edit_patch session request) _ h in
        edit_with-Moves (by_user env.around) patch step h1
    act-Carried LifecycleAction.refresh_weather env =
        after_weather-Carried env _
          (refresh_weather-Refreshed policy.digest policy.weather env.weather_tools session request)
    act-Carried (LifecycleAction.dismiss_weather_event id) env =
        with_interrupt-Carried env _ λ step.
          unpatched-Moves graph (dismiss_weather_event id session request) step (λ new.
            dismiss_weather_event-IsSound policy.digest policy.max_versions id session new request
              sound)

    lifted-Carried :
        (r : Result LifecycleError Step)
        → ((step : Step) → r ≡ ok step → Moves request session step.0)
        → Carried (lifted r)
    lifted-Carried (raise e) k = tt
    lifted-Carried (ok step) k = k step refl

    require-Carried :
        (b : Bool) (e : LifecycleError) (r : Result Stop Step)
        → Carried r
        → Carried (require b (refused e) r)
    require-Carried true e r c = c
    require-Carried false e r c = tt

    pub carried_out-Carried :
        (env : Outside) (b : Bool)
        → awaits_requirement session.status ≡ b
        → Carried (carried_out policy env request graph session b)
    carried_out-Carried env true awaits =
        lifted-Carried (resume_requirement env session graph request) λ step.
          resume_requirement-Moves policy.digest policy.max_versions session request graph sound env
            step awaits
    carried_out-Carried env false other =
        require-Carried (str_eq request.interrupt_id graph.interrupt_id)
          (conflict "stale_interrupt") _ (act-Carried request.action env)
