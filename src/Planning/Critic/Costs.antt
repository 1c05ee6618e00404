-- ===== src/Planning/Critic/Costs.antt =====
-- planning/critic.py: when a plan over its budget can be repaired.
use travel_plan_agent.Common.{
  ℕ, ◌≡◌, ◌+◌, refl, Bool, some, List, [], ◌∷◌, ◌&&◌, not, ltb, leb, filter, arith,
}
use travel_plan_agent.Common.Text.{Unicode}
use travel_plan_agent.Planning.Models.{PlanItem, TripSpec, PlanCandidate}
use travel_plan_agent.Planning.Repair.{is_required_name}
use travel_plan_agent.Planning.Validator.{all_items, known_cost}
use travel_plan_agent.Planning.Critic.{required_cost, budget_can_be_repaired}

-- A test splits the costs of a list.
known_cost-filter :
    (p : PlanItem → Bool) (items : List PlanItem)
    → known_cost (filter p items) + known_cost (filter (λ i. not (p i)) items) ≡ known_cost items
known_cost-filter p [] = refl
known_cost-filter p (item ∷ items) = grind (arith, known_cost-filter p items)

-- For a plan whose total is the sum of its known costs, the critic holds the budget to be within reach
-- exactly if the plan exceeds it and the required items alone do not: the test of the optional costs
-- adds nothing.
pub budget_can_be_repaired-required_cost :
    ⦃u : Unicode⦄ (trip : TripSpec) (candidate : PlanCandidate) (budget : ℕ)
    → trip.total_budget ≡ some budget
    → candidate.known_estimated_cost ≡ known_cost (all_items candidate.days)
    → budget_can_be_repaired candidate trip ≡ (
        leb (required_cost trip (all_items candidate.days)) budget
        && ltb budget (known_cost (all_items candidate.days)))
unfolding budget_can_be_repaired
budget_can_be_repaired-required_cost trip candidate budget h k =
    let items = all_items candidate.days in
    rw (h, k)
      (ground (arith, known_cost-filter (λ (i : PlanItem). is_required_name trip i.name) items))
