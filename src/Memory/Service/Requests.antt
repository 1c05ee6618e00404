-- ===== src/Memory/Service/Requests.antt =====
-- A sequence of requests to the service as data, and what it leaves to other owners.
use travel_plan_agent.Common.{
  ℕ, ◌≡◌, String, Bool, false, Option, none, some, List, [], ◌∷◌, not, lookup, string_eq, arith,
  All,
}
use travel_plan_agent.Common.Text.{Unicode, is_empty}
use travel_plan_agent.Common.Dict.Unique.{IsUnique}
use travel_plan_agent.Memory.Models.{
  ProposalStatus, PreferenceMemory, MemoryProposal, Principal, proposal_not_pending,
  stale_personalization_revision, pending_at, PersonalizationSettings,
}
use travel_plan_agent.Memory.Policy.{Encoding}
use travel_plan_agent.Memory.Repository.{
  Store, owns, get_proposal, save_proposal, get_personalization, save_personalization,
}
use travel_plan_agent.Memory.Service.{
  Service, decision_key, Decision, confirmed_memory, rejected_proposal, PreferenceCreateRequest,
  PreferenceUpdateRequest, MemoryProposalRequest, create_explicit, update, propose, revoke, delete,
  clear,
}
use travel_plan_agent.Memory.Service.Proposals.{
  proposed_memory, confirmed_before, confirm_pending, confirm_fresh, replayed_memory,
  confirm_proposal, is_rejected, reject_fresh, replayed_proposal, reject_proposal, personalization,
  confirmed_proposal, refused_proposal, updated_settings, is_stale, update_personalization,
}
use travel_plan_agent.Memory.Service.Keeps.{
  Keeps, Keeps-pure, Keeps-throw, Keeps-find_hash, Keeps-decide, Keeps-decided, Keeps-on_store,
  Keeps-if, Keeps-bind, Keeps-get, Keeps-stored,
}
use travel_plan_agent.Memory.Service.Isolation.{
  Holds, keep_or_create-Holds, save_proposal-Holds, create_explicit-Holds, update-Holds,
  propose-Holds, revoke-Holds, delete-Holds, clear-Holds,
}

module _ (who : Principal) (id : String) (m : PreferenceMemory) where
  confirm_pending-Holds :
      (pid rid : String) (p : MemoryProposal) (now : ℕ) (new : String)
      → Keeps (Holds who id m) (confirm_pending who pid rid p now new)
  unfolding confirm_pending
  confirm_pending-Holds pid rid p now new =
      Keeps-bind _ _ (Keeps-find_hash who p.content_hash) (λ existing.
        Keeps-bind _ _ (keep_or_create-Holds who id m existing (proposed_memory who p now new))
          (λ memory.
            let p' = confirmed_proposal p now memory in
            Keeps-bind _ _ (Keeps-on_store (save_proposal p') (save_proposal-Holds who id m p'))
              (λ _.
                Keeps-bind _ _ (Keeps-decide (decision_key who pid rid) (confirmed_memory memory))
                  (λ _. Keeps-pure memory))))

  confirmed_before-Holds :
      (pid rid : String) (st : ProposalStatus) (o : Option String)
      → Keeps (Holds who id m) (confirmed_before who pid rid st o)
  unfolding confirmed_before
  confirmed_before-Holds pid rid ProposalStatus.confirmed (some key) =
      Keeps-if (is_empty key) _ _ (Keeps-throw proposal_not_pending) (
        Keeps-bind _ _ (Keeps-get who key)
          (λ result. Keeps-bind _ _ (Keeps-decide _ _) (λ _. Keeps-pure result)))
  confirmed_before-Holds pid rid ProposalStatus.confirmed none = Keeps-throw _
  confirmed_before-Holds pid rid ProposalStatus.pending o = Keeps-throw _
  confirmed_before-Holds pid rid ProposalStatus.rejected o = Keeps-throw _
  confirmed_before-Holds pid rid ProposalStatus.expired o = Keeps-throw _

  get_proposal-Holds :
      (pid : String) (s : Store)
      → Holds who id m s
      → Holds who id m (get_proposal who.tenant_id who.user_id pid s).1
  unfolding get_proposal
  get_proposal-Holds pid s h = h

  confirm_proposal-Holds :
      (pid rid : String) (checked now : ℕ) (new : String)
      → Keeps (Holds who id m) (confirm_proposal who pid rid checked now new)
  unfolding confirm_proposal confirm_fresh
  confirm_proposal-Holds pid rid checked now new =
      Keeps-bind _ _ (Keeps-decided (decision_key who pid rid)) replayed
    where
      fresh : Keeps (Holds who id m) (confirm_fresh who pid rid checked now new)
      fresh =
          Keeps-bind _ _
            (Keeps-on_store (get_proposal who.tenant_id who.user_id pid) (get_proposal-Holds pid))
            (λ p.
              Keeps-if (pending_at p checked) _ _ (confirm_pending-Holds pid rid p now new)
                (confirmed_before-Holds pid rid p.status p.memory_id))

      replayed :
          (o : Option Decision)
          → Keeps (Holds who id m) (replayed_memory o (confirm_fresh who pid rid checked now new))
      replayed none = fresh
      replayed (some (confirmed_memory n)) = Keeps-pure n
      replayed (some (rejected_proposal p)) = fresh

  reject_proposal-Holds :
      (pid rid : String) (checked now : ℕ)
      → Keeps (Holds who id m) (reject_proposal who pid rid checked now)
  unfolding reject_proposal reject_fresh
  reject_proposal-Holds pid rid checked now =
      Keeps-bind _ _ (Keeps-decided (decision_key who pid rid)) replayed
    where
      fresh : Keeps (Holds who id m) (reject_fresh who pid rid checked now)
      fresh =
          Keeps-bind _ _
            (Keeps-on_store (get_proposal who.tenant_id who.user_id pid) (get_proposal-Holds pid))
            (λ p.
              Keeps-if (is_rejected p.status) _ _
                (Keeps-bind _ _ (Keeps-decide _ _) (λ _. Keeps-pure p))
                (Keeps-if (not (pending_at p checked)) _ _ (Keeps-throw proposal_not_pending) (
                  let p' = refused_proposal p now in
                  Keeps-bind _ _
                    (Keeps-on_store (save_proposal p') (save_proposal-Holds who id m p'))
                    (λ _.
                      Keeps-bind _ _
                        (Keeps-decide (decision_key who pid rid) (rejected_proposal p'))
                        (λ _. Keeps-pure p')))))

      replayed :
          (o : Option Decision)
          → Keeps (Holds who id m) (replayed_proposal o (reject_fresh who pid rid checked now))
      replayed none = fresh
      replayed (some (rejected_proposal p)) = Keeps-pure p
      replayed (some (confirmed_memory n)) = fresh

  get_personalization-Holds :
      (now : ℕ) (s : Store)
      → Holds who id m s
      → Holds who id m (get_personalization who.tenant_id who.user_id now s).1
  unfolding get_personalization
  get_personalization-Holds now s h = ground (arith, h)

  save_personalization-Holds :
      (new : PersonalizationSettings) (expected : Option ℕ) (s : Store)
      → Holds who id m s
      → Holds who id m (save_personalization new expected s).1
  unfolding save_personalization
  save_personalization-Holds new expected s h = ground (arith, h)

  update_personalization-Holds :
      (enabled : Bool) (expected : Option ℕ) (now : ℕ)
      → Keeps (Holds who id m) (update_personalization who enabled expected now)
  unfolding update_personalization personalization
  update_personalization-Holds enabled expected now =
      Keeps-bind _ _
        (Keeps-on_store (get_personalization who.tenant_id who.user_id now)
          (get_personalization-Holds now))
        (λ current.
          Keeps-if (is_stale expected current.revision) _ _
            (Keeps-throw stale_personalization_revision)
            (let new = updated_settings current enabled now in
              Keeps-stored (save_personalization new (some current.revision)) new
                (save_personalization-Holds new (some current.revision))))

-- The requests, with the clock readings and the new identifiers that serve them.
pub data Request : Type 0 where
  creates : PreferenceCreateRequest → Option String → ℕ → String → Request
  updates : String → PreferenceUpdateRequest → ℕ → Request
  proposes : MemoryProposalRequest → ℕ → String → Request
  revokes : String → ℕ → ℕ → ℕ → Request
  deletes : String → Request
  clears : Request
  confirms : String → String → ℕ → ℕ → String → Request
  rejects : String → String → ℕ → ℕ → Request
  personalizes : Bool → Option ℕ → ℕ → Request
  reads_settings : ℕ → Request

-- The state that a request leaves, whether it returns or raises.
unfoldable pub perform : ⦃u : Unicode⦄ ⦃enc : Encoding⦄ → Principal → Request → Service → Service
perform who (creates r run now new) s = (create_explicit who r run now new s).1
perform who (updates key r now) s = (update who key r now s).1
perform who (proposes r now new) s = (propose who r now new s).1
perform who (revokes key expected now later) s = (revoke who key expected now later s).1
perform who (deletes key) s = (delete who key s).1
perform who clears s = (clear who s).1
perform who (confirms pid rid checked now new) s =
    (confirm_proposal who pid rid checked now new s).1
perform who (rejects pid rid checked now) s = (reject_proposal who pid rid checked now s).1
perform who (personalizes enabled expected now) s =
    (update_personalization who enabled expected now s).1
perform who (reads_settings now) s = (personalization who now s).1

unfoldable pub perform_all :
    ⦃u : Unicode⦄ ⦃enc : Encoding⦄ → List (Principal × Request) → Service → Service
unfolding perform
perform_all [] s = s
perform_all ((who, r) ∷ rest) s = perform_all rest (perform who r s)

module _ ⦃u : Unicode⦄ ⦃enc : Encoding⦄ (id : String) (m : PreferenceMemory) where
  perform-Holds :
      (who : Principal) (r : Request) (s : Service)
      → Holds who id m s.store
      → Holds who id m (perform who r s).store
  unfolding perform
  perform-Holds who (creates r run now new) s h =
      (create_explicit-Holds who id m r run now new).at s h
  perform-Holds who (updates key r now) s h = (update-Holds who id m key r now).at s h
  perform-Holds who (proposes r now new) s h = (propose-Holds who id m r now new).at s h
  perform-Holds who (revokes key expected now later) s h =
      (revoke-Holds who id m key expected now later).at s h
  perform-Holds who (deletes key) s h = (delete-Holds who id m key).at s h
  perform-Holds who clears s h = (clear-Holds who id m).at s h
  perform-Holds who (confirms pid rid checked now new) s h =
      (confirm_proposal-Holds who id m pid rid checked now new).at s h
  perform-Holds who (rejects pid rid checked now) s h =
      (reject_proposal-Holds who id m pid rid checked now).at s h
  perform-Holds who (personalizes enabled expected now) s h =
      (update_personalization-Holds who id m enabled expected now).at s h
  perform-Holds who (reads_settings now) s h =
      unfold personalization in get_personalization-Holds who id m now s.store h

  -- Whatever requests other principals make, in whatever order and whether they succeed or raise, a
  -- memory that is none of theirs is still stored as it was, and no identifier is stored twice, if
  -- none was before.
  pub perform_all-keeps :
      (rs : List (Principal × Request)) (s : Service)
      → IsUnique s.store.memories
      → lookup id s.store.memories ≡ some m
      → All (λ (r : Principal × Request). owns r.0.tenant_id r.0.user_id m ≡ false) rs
      → (lookup id (perform_all rs s).store.memories ≡ some m)
        × IsUnique (perform_all rs s).store.memories
  unfolding perform_all
  perform_all-keeps [] s u stored others = (stored, u)
  perform_all-keeps ((who, r) ∷ rest) s u stored (other, others) =
      let (u', stored', _) = perform-Holds who r s (u, stored, other) in
      perform_all-keeps rest (perform who r s) u' stored' others
