-- ===== src/Memory/Service/Decisions.antt =====
-- The decisions on proposals, for requests that are sent again.
use travel_plan_agent.Common.{
  ℕ, ◌≡◌, refl, String, Bool, true, false, Option, none, some, if◌then◌else◌, not, Result, ok,
  raise, continue, pure, throw, ◌>>=◌, ◌>>◌, lookup, lookup-insert, beq_refl, pair_eq, string_eq,
  arith,
}
use travel_plan_agent.Common.Text.{is_empty}
use travel_plan_agent.Memory.Models.{
  ProposalStatus, PreferenceMemory, MemoryProposal, Principal, MemoryError, proposal_not_pending,
  pending_at,
}
use travel_plan_agent.Memory.Repository.{get_proposal, save_proposal}
use travel_plan_agent.Memory.Service.{
  Service, ServiceM, Decision, DecisionKey, confirmed_memory, rejected_proposal, on_store, decide,
  decision_key, find_hash, get, keep_or_create,
}
use travel_plan_agent.Memory.Service.Proposals.{
  proposed_memory, confirmed_before, confirm_pending, confirm_fresh, replayed_memory,
  confirm_proposal, is_rejected, reject_fresh, replayed_proposal, reject_proposal,
  confirmed_proposal, refused_proposal,
}

-- Where the action returns, its decision is in the table.
record Records {A : Type 0} (key : DecisionKey) (as_decision : A → Decision) (m : ServiceM A)
    : Type 0 where
  entered :
      (s : Service) (a : A) → (m s).0 ≡ ok a → lookup key (m s).1.decisions ≡ some (as_decision a)

module _ {A : Type 0} (key : DecisionKey) (as_decision : A → Decision) where
  Records-throw : (e : MemoryError) → Records key as_decision (throw e)
  Records-throw e = record { entered = λ s a h. absurd (cc h) }

  Records-if :
      (b : Bool) (m n : ServiceM A)
      → Records key as_decision m
      → Records key as_decision n
      → Records key as_decision (if b then m else n)
  Records-if true m n rm rn = rm
  Records-if false m n rm rn = rn

  Records-continue :
      {B : Type 0} (r : Result MemoryError B) (f : B → ServiceM A)
      → ((b : B) → Records key as_decision (f b))
      → Records key as_decision (continue r f)
  Records-continue (ok b) f k = record { entered = (k b).entered }
  Records-continue (raise e) f k = record { entered = λ s a h. absurd (cc h) }

  Records-bind :
      {B : Type 0} (m : ServiceM B) (f : B → ServiceM A)
      → ((b : B) → Records key as_decision (f b))
      → Records key as_decision (m >>= f)
  Records-bind m f k = record { entered = λ s. (Records-continue (m s).0 f k).entered (m s).1 }

  Records-decide : (a : A) → Records key as_decision (decide key (as_decision a) >> pure a)
  Records-decide a = record {
    entered =
        λ s b h. ground (arith, h, lookup-insert key key (as_decision a) s.decisions, beq_refl key);
  }

module _ (who : Principal) (pid rid : String) where
  abbrev key : DecisionKey
  key = decision_key who pid rid

  confirm_pending-Records :
      (p : MemoryProposal) (now : ℕ) (new : String)
      → Records key confirmed_memory (confirm_pending who pid rid p now new)
  unfolding confirm_pending
  confirm_pending-Records p now new =
      Records-bind key confirmed_memory (find_hash who p.content_hash) _ (λ existing.
        Records-bind key confirmed_memory (keep_or_create existing (proposed_memory who p now new))
          _
          (λ memory.
            Records-bind key confirmed_memory
              (on_store (save_proposal (confirmed_proposal p now memory))) _
              (λ _. Records-decide key confirmed_memory memory)))

  confirmed_before-Records :
      (st : ProposalStatus) (o : Option String)
      → Records key confirmed_memory (confirmed_before who pid rid st o)
  unfolding confirmed_before
  confirmed_before-Records ProposalStatus.confirmed (some id) =
      Records-if key confirmed_memory (is_empty id) _ _ (Records-throw key confirmed_memory _)
        (Records-bind key confirmed_memory (get who id) _ (Records-decide key confirmed_memory))
  confirmed_before-Records ProposalStatus.confirmed none = Records-throw key confirmed_memory _
  confirmed_before-Records ProposalStatus.pending o = Records-throw key confirmed_memory _
  confirmed_before-Records ProposalStatus.rejected o = Records-throw key confirmed_memory _
  confirmed_before-Records ProposalStatus.expired o = Records-throw key confirmed_memory _

  confirm_fresh-Records :
      (checked now : ℕ) (new : String)
      → Records key confirmed_memory (confirm_fresh who pid rid checked now new)
  unfolding confirm_fresh
  confirm_fresh-Records checked now new =
      Records-bind key confirmed_memory (on_store (get_proposal who.tenant_id who.user_id pid)) _
        (λ p.
          Records-if key confirmed_memory (pending_at p checked) _ _
            (confirm_pending-Records p now new) (confirmed_before-Records p.status p.memory_id))

  -- What `confirm_proposal` has returned is in the table of decisions.
  confirmed_lem :
      (checked now : ℕ) (new : String) (s : Service) (m : PreferenceMemory)
      → (confirm_proposal who pid rid checked now new s).0 ≡ ok m
      → lookup key (confirm_proposal who pid rid checked now new s).1.decisions
        ≡ some (confirmed_memory m)
  unfolding confirm_proposal
  confirmed_lem checked now new s m = looked_up (lookup key s.decisions) refl
    where
      looked_up :
          (o : Option Decision)
          → lookup key s.decisions ≡ o
          → (replayed_memory o (confirm_fresh who pid rid checked now new) s).0 ≡ ok m
          → lookup key (replayed_memory o (confirm_fresh who pid rid checked now new) s).1.decisions
            ≡ some (confirmed_memory m)
      looked_up none e h = (confirm_fresh-Records checked now new).entered s m h
      looked_up (some (rejected_proposal p)) e h =
          (confirm_fresh-Records checked now new).entered s m h
      looked_up (some (confirmed_memory n)) e h = cc

  replayed_memory_lem :
      (checked' now' : ℕ) (new' : String) (m : PreferenceMemory) (t : Service)
      → lookup key t.decisions ≡ some (confirmed_memory m)
      → confirm_proposal who pid rid checked' now' new' t ≡ (ok m, t)
  unfolding confirm_proposal
  replayed_memory_lem checked' now' new' m t e = rw e

  -- A confirmation that has returned a memory, sent again with the same request identifier, returns
  -- the same memory and changes nothing, whatever the clock reads.
  pub confirm_proposal-replay :
      (checked now checked' now' : ℕ) (new new' : String) (s : Service) (m : PreferenceMemory)
      → (confirm_proposal who pid rid checked now new s).0 ≡ ok m
      → confirm_proposal who pid rid checked' now' new'
          (confirm_proposal who pid rid checked now new s).1
        ≡ (ok m, (confirm_proposal who pid rid checked now new s).1)
  confirm_proposal-replay checked now checked' now' new new' s m h =
      replayed_memory_lem checked' now' new' m (confirm_proposal who pid rid checked now new s).1
        (confirmed_lem checked now new s m h)

  reject_fresh-Records :
      (checked now : ℕ) → Records key rejected_proposal (reject_fresh who pid rid checked now)
  unfolding reject_fresh
  reject_fresh-Records checked now =
      Records-bind key rejected_proposal (on_store (get_proposal who.tenant_id who.user_id pid)) _
        (λ p.
          Records-if key rejected_proposal (is_rejected p.status) _ _
            (Records-decide key rejected_proposal p)
            (Records-if key rejected_proposal (not (pending_at p checked)) _ _
              (Records-throw key rejected_proposal proposal_not_pending)
              (Records-bind key rejected_proposal
                (on_store (save_proposal (refused_proposal p now))) _
                (λ _. Records-decide key rejected_proposal (refused_proposal p now)))))

  rejected_lem :
      (checked now : ℕ) (s : Service) (p : MemoryProposal)
      → (reject_proposal who pid rid checked now s).0 ≡ ok p
      → lookup key (reject_proposal who pid rid checked now s).1.decisions
        ≡ some (rejected_proposal p)
  unfolding reject_proposal
  rejected_lem checked now s p = looked_up (lookup key s.decisions) refl
    where
      looked_up :
          (o : Option Decision)
          → lookup key s.decisions ≡ o
          → (replayed_proposal o (reject_fresh who pid rid checked now) s).0 ≡ ok p
          → lookup key (replayed_proposal o (reject_fresh who pid rid checked now) s).1.decisions
            ≡ some (rejected_proposal p)
      looked_up none e h = (reject_fresh-Records checked now).entered s p h
      looked_up (some (confirmed_memory n)) e h = (reject_fresh-Records checked now).entered s p h
      looked_up (some (rejected_proposal q)) e h = cc

  replayed_proposal_lem :
      (checked' now' : ℕ) (p : MemoryProposal) (t : Service)
      → lookup key t.decisions ≡ some (rejected_proposal p)
      → reject_proposal who pid rid checked' now' t ≡ (ok p, t)
  unfolding reject_proposal
  replayed_proposal_lem checked' now' p t e = rw e

  -- A rejection that has returned a proposal, sent again with the same request identifier, returns
  -- the same proposal and changes nothing.
  pub reject_proposal-replay :
      (checked now checked' now' : ℕ) (s : Service) (p : MemoryProposal)
      → (reject_proposal who pid rid checked now s).0 ≡ ok p
      → reject_proposal who pid rid checked' now' (reject_proposal who pid rid checked now s).1
        ≡ (ok p, (reject_proposal who pid rid checked now s).1)
  reject_proposal-replay checked now checked' now' s p h =
      replayed_proposal_lem checked' now' p (reject_proposal who pid rid checked now s).1
        (rejected_lem checked now s p h)
