-- ===== src/Lifecycle/Workflow/Sound/Requests.antt =====
-- Whatever requests come, the session stays sound, and a request that is sent again changes nothing.
use travel_plan_agent.Common.{
  ℕ, ◌≤◌, ◌≡◌, refl, ap, ◌∙◌, String, Option, none, some, List, [], ◌∷◌, lookup, insert, nat_eq,
  string_eq, Result, ok, raise, arith, lookup-insert, beq_refl,
}
use travel_plan_agent.Common.Text.{Unicode}
use travel_plan_agent.Lifecycle.Models.{
  PlanVersion, ActionReceipt, PlanSessionRecord, LifecycleResumeRequest, LifecycleError,
}
use travel_plan_agent.Lifecycle.Repository.{get, save}
use travel_plan_agent.Lifecycle.Workflow.Session.{carried_out, fresh, resume, run_requests}
use travel_plan_agent.Lifecycle.Workflow.World.{
  Graph, Outside, Policy, World, Step, saved, finished,
}
use travel_plan_agent.Lifecycle.Workflow.Sound.{IsSound, Advances}
use travel_plan_agent.Lifecycle.Workflow.Sound.Moves.{Carried, carried_out-Carried}
use travel_plan_agent.Lifecycle.Workflow.Sound.Weather.{Fails, Fails-IsSound}
use travel_plan_agent.Lifecycle.Workflow.Weather.{Stop, refused, failed}
use travel_plan_agent.Lifecycle.Workflow.{awaits_requirement}

-- A session is stored under its identifier.
pub record Stores (session_id : String) (w : World) (session : PlanSessionRecord) : Type 0 where
  pub at : lookup session_id w.sessions ≡ some session
  pub named : session.session_id ≡ session_id

-- The versions that were there are there, and the revision does not fall.
pub record Follows (old new : PlanSessionRecord) : Type 0 where
  pub not_before : old.session_revision ≤ new.session_revision
  pub kept :
      (n : ℕ) (v : PlanVersion) → lookup n old.versions ≡ some v → lookup n new.versions ≡ some v

Fails-Follows : (old new : PlanSessionRecord) → Fails old new → Follows old new
Fails-Follows old new fails =
    rw (fails.same) (record { not_before = omega arith; kept = λ n v e. e })

-- The world after a session is saved.
abbrev world_with : World → Step → World
world_with w (session, graph) = record {
  sessions = insert session.session_id session w.sessions;
  graph = graph;
}

saved_lem :
    (w : World) (session : PlanSessionRecord) (step : Step) (session_id : String)
    (answer : Result LifecycleError (Unit {0}))
    → Stores session_id w session
    → step.0.session_id ≡ session.session_id
    → saved w session step answer ≡ (answer, world_with w step)
unfolding save
saved_lem w session step session_id answer stores same =
    let at : lookup step.0.session_id w.sessions ≡ some session =
      ap (λ id. lookup id w.sessions) (same ∙ stores.named) ∙ stores.at in
    rw (at, beq_refl session.session_revision)

module _ ⦃u : Unicode⦄ (policy : Policy) (room : 1 ≤ policy.max_versions)
    (session_id : String) where
  abbrev pub Sound : PlanSessionRecord → Type 0
  Sound = IsSound policy.digest policy.max_versions

  -- How a request ends: nothing is changed, or a sound session is saved, with the receipt unless it
  -- raises.
  data Ends (w : World) (session : PlanSessionRecord) (request : LifecycleResumeRequest)
      (r : Result LifecycleError (Unit {0}) × World) : Type 0 where
    raised : (e : LifecycleError) → r ≡ (raise e, w) → Ends w session request r
    replayed :
        (receipt : ActionReceipt)
        → lookup request.request_id session.receipts ≡ some receipt
        → r ≡ (ok tt, w)
        → Ends w session request r
    failed_after :
        (e : LifecycleError) (new : PlanSessionRecord)
        → r.0 ≡ raise e
        → Stores session_id r.1 new
        → Sound new
        → Fails session new
        → Ends w session request r
    moved :
        (new : PlanSessionRecord)
        → r.0 ≡ ok tt
        → Stores session_id r.1 new
        → Sound new
        → Advances request session new
        → Ends w session request r

  finished-Ends :
      (request : LifecycleResumeRequest) (w : World) (session : PlanSessionRecord) (graph : Graph)
      (sound : Sound session) (o : Result Stop Step)
      → Stores session_id w session
      → Carried policy room session request graph sound o
      → Ends w session request (finished w session o)
  finished-Ends request w session graph sound (raise (refused e)) stores c = Ends.raised e refl
  finished-Ends request w session graph sound (raise (failed new e)) stores fails =
      let same = ap (λ (s : PlanSessionRecord). s.session_id) fails.same in
      rw (saved_lem w session (new, w.graph) session_id (raise e) stores same) (
        Ends.failed_after e new refl
          (record {
            at = rw (same ∙ stores.named, lookup-insert, beq_refl session_id);
            named = same ∙ stores.named;
          })
          (Fails-IsSound policy.digest policy.max_versions session new sound fails) fails)
  finished-Ends request w session graph old_sound (ok step) stores (sound, advances) =
      rw (saved_lem w session step session_id (ok tt) stores advances.same_id) (
        Ends.moved step.0 refl
          (record {
            at = rw (advances.same_id ∙ stores.named, lookup-insert, beq_refl session_id);
            named = advances.same_id ∙ stores.named;
          })
          sound advances)

  resume-Ends :
      (env : Outside) (request : LifecycleResumeRequest) (w : World) (session : PlanSessionRecord)
      → Stores session_id w session
      → Sound session
      → Ends w session request (resume policy session_id env request w)
  unfolding resume get
  resume-Ends env request w session stores sound =
      rw (stores.at) (ended (lookup request.request_id session.receipts) refl)
    where
      ended :
          (o : Option ActionReceipt)
          → lookup request.request_id session.receipts ≡ o
          → Ends w session request (fresh policy env request w session o)
      ended (some receipt) q = Ends.replayed receipt q refl
      ended none q =
          finished-Ends request w session w.graph sound
            (carried_out policy env request w.graph session (awaits_requirement session.status))
            stores
            (carried_out-Carried policy room session request w.graph sound env
              (awaits_requirement session.status) refl)

  -- A request with a receipt is answered, and changes nothing.
  answered :
      (env : Outside) (request : LifecycleResumeRequest) (w : World) (session : PlanSessionRecord)
      (receipt : ActionReceipt)
      → lookup session_id w.sessions ≡ some session
      → lookup request.request_id session.receipts ≡ some receipt
      → resume policy session_id env request w ≡ (ok tt, w)
  unfolding resume get
  answered env request w session receipt at noted = rw (at, noted)

  -- A request, of whatever kind, that a sound session has answered without an error, when it is sent again under its
  -- identifier with whatever content and whatever comes from outside, is answered without an error and
  -- changes neither a session nor the state of the graph.
  pub resume-again :
      (env env' : Outside) (request request' : LifecycleResumeRequest) (w w' : World)
      (session : PlanSessionRecord)
      → Stores session_id w session
      → Sound session
      → request'.request_id ≡ request.request_id
      → resume policy session_id env request w ≡ (ok tt, w')
      → resume policy session_id env' request' w' ≡ (ok tt, w')
  resume-again env env' request request' w w' session stores sound same h =
      by_end (resume-Ends env request w session stores sound)
    where
      by_end :
          Ends w session request (resume policy session_id env request w)
          → resume policy session_id env' request' w' ≡ (ok tt, w')
      by_end (Ends.raised e q) = absurd (cc (h, q))
      by_end (Ends.replayed receipt noted q) =
          let here : w ≡ w' = ground (arith, h, q) in
          rw (← here) (answered env' request' w session receipt stores.at (rw same noted))
      by_end (Ends.failed_after e new q stores' sound' fails) = absurd (cc (ap (λ r. r.0) h, q))
      by_end (Ends.moved new done stores' sound' advances) =
          let here : (resume policy session_id env request w).1 ≡ w' = ap (λ r. r.1) h in
          let (receipt, noted, at) = advances.noted in
          answered env' request' w' new receipt (rw (← here) stores'.at) (rw same noted)

  -- What one request does to a sound session.
  resume-Follows :
      (env : Outside) (request : LifecycleResumeRequest) (w : World) (session : PlanSessionRecord)
      → Stores session_id w session
      → Sound session
      → (new : PlanSessionRecord) × Stores session_id (resume policy session_id env request w).1 new
        × Sound new
        × Follows session new
  resume-Follows env request w session stores sound =
      by_end (resume policy session_id env request w)
        (resume-Ends env request w session stores sound)
    where
      stays : Follows session session
      stays = record { not_before = omega arith; kept = λ n v e. e }

      by_end :
          (r : Result LifecycleError (Unit {0}) × World)
          → Ends w session request r
          → (new : PlanSessionRecord) × Stores session_id r.1 new × Sound new × Follows session new
      by_end r (Ends.raised e q) = rw q (session, stores, sound, stays)
      by_end r (Ends.replayed receipt noted q) = rw q (session, stores, sound, stays)
      by_end r (Ends.failed_after e new q stores' sound' fails) =
          (new, stores', sound', Fails-Follows session new fails)
      by_end r (Ends.moved new done stores' sound' advances) = (
        new,
        stores',
        sound',
        record { not_before = omega (arith, advances.revised); kept = advances.kept },
      )

  -- Whatever requests come to a sound session, of every kind, in whatever order, whatever they raise and
  -- whatever comes from outside (the patch that is read from a text, the plan that is made from a draft,
  -- the token, the answers of the weather's gateway and of the planning),
  -- the session stays sound: its versions are numbered from one on, each the child of the one before
  -- it, none is invalid, the last one is active, and they are at most the maximum; each lock holds of
  -- the active version; and a preview that waits for approval is not invalid and keeps the locks.
  -- Versions that were there stay as they are, and the revision does not fall. At least one version is
  -- allowed.
  pub run_requests-IsSound :
      (requests : List (Outside × LifecycleResumeRequest)) (w : World) (session : PlanSessionRecord)
      → Stores session_id w session
      → Sound session
      → (new : PlanSessionRecord) × Stores session_id
          (run_requests policy session_id requests w)
          new
        × Sound new
        × Follows session new
  unfolding run_requests
  run_requests-IsSound [] w session stores sound =
      (session, stores, sound, record { not_before = omega arith; kept = λ n v e. e })
  run_requests-IsSound ((env, request) ∷ requests) w session stores sound =
      let (next, stores', sound', first) = resume-Follows env request w session stores sound in
      let (new, stores'', sound'', later) =
        run_requests-IsSound requests (resume policy session_id env request w).1 next stores'
          sound' in
      (
        new,
        stores'',
        sound'',
        record {
          not_before = omega (arith, first.not_before, later.not_before);
          kept = λ n v e. later.kept n v (first.kept n v e);
        },
      )
