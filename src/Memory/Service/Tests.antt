-- ===== src/Memory/Service/Tests.antt =====
-- A service of memory/service.py with the memories of two users.
use travel_plan_agent.Common.{
  ℕ, String, ◌≡◌, refl, false, Option, none, some, List, [], ◌∷◌, ok, raise, lookup, insert,
  contains, string_eq,
}
use travel_plan_agent.Common.Text.{Unicode, occurs}
use travel_plan_agent.Common.Dict.Unique.{IsUnique}
use travel_plan_agent.Memory.Models.{
  MemoryCategory, MemorySource, ConfirmationStatus, PreferenceScope, ProposalStatus, text,
  PreferenceValue, scalar, PreferenceMemory, MemoryProposal, Principal, stale_memory_revision,
  is_active, pending_at, validate_memory,
}
use travel_plan_agent.Memory.Policy.{
  Encoding, normalize_preference_value, normalize_category, normalize_choice, is_sensitive,
}
use travel_plan_agent.Memory.Policy.Normal.{normalize_category_idem}
use travel_plan_agent.Memory.Repository.{
  get_memory, save_memory, create_memory, find_content_hash, get_proposal, save_proposal,
}
use travel_plan_agent.Memory.Service.{
  Service, PreferenceCreateRequest, PreferenceUpdateRequest, create_explicit, update,
  updated_memory, revoke, revoked_memory, explicit_memory, keep_or_create,
}
use travel_plan_agent.Memory.Service.Proposals.{
  proposed_memory, confirm_proposal, confirm_fresh, confirm_pending, reject_fresh, reject_proposal,
  refused_proposal,
}
use travel_plan_agent.Memory.Service.Requests.{
  Request, creates, revokes, deletes, clears, confirms, perform_all, perform_all-keeps,
}
use travel_plan_agent.Memory.Service.Memories.{
  IsOwn, update-stale, revoke-inactive, create_explicit-again,
}
use travel_plan_agent.Memory.Service.Decisions.{confirm_proposal-replay, reject_proposal-replay}

-- Texts in the normal form already, and the text of a value as its encoding and its digest.
instance abbrev plain : Unicode
plain = record { strip = λ s. s; casefold = λ s. s; lower = λ s. s }

abbrev shown : PreferenceValue → String
shown (scalar (text t)) = t
shown _ = ""

instance abbrev encoding : Encoding
encoding = record { dumps = shown; has_long_number = λ s. false; digest = λ c v s k. shown v }

abbrev ann : Principal
ann = record { tenant_id = "t"; user_id = "ann" }

abbrev bob : Principal
bob = record { tenant_id = "t"; user_id = "bob" }

abbrev memory : Principal → String → String → PreferenceMemory
memory who id pace = record {
  memory_id = id;
  tenant_id = who.tenant_id;
  user_id = who.user_id;
  category = MemoryCategory.pace;
  value = scalar (text pace);
  scope = PreferenceScope.global;
  scope_key = none;
  source = MemorySource.explicit_user;
  source_run_id = none;
  confirmation_status = ConfirmationStatus.confirmed;
  revision = 1;
  created_at = 5;
  updated_at = 5;
  expires_at = none;
  revoked_at = none;
  content_hash = pace;
}

abbrev proposal : MemoryProposal
proposal = record {
  proposal_id = "p1";
  tenant_id = ann.tenant_id;
  user_id = ann.user_id;
  category = MemoryCategory.pace;
  value = scalar (text "balanced");
  scope = PreferenceScope.global;
  scope_key = none;
  source = MemorySource.single_action;
  source_run_id = none;
  reason = "chosen once";
  status = ProposalStatus.pending;
  created_at = 6;
  expires_at = some 90;
  resolved_at = none;
  memory_id = none;
  content_hash = "balanced";
}

abbrev service : Service
service = record {
  store = record {
    memories = ("a1", memory ann "a1" "relaxed") ∷ ("b1", memory bob "b1" "intensive") ∷ [];
    proposals = ("p1", proposal) ∷ [];
    settings = [];
  };
  decisions = [];
}

abbrev create : String → PreferenceCreateRequest
create pace = record {
  category = MemoryCategory.pace;
  value = scalar (text pace);
  scope = PreferenceScope.global;
  scope_key = none;
  expires_at = none;
}

abbrev change : Option PreferenceValue → PreferenceUpdateRequest
change value = record { value = value; expires_at = none; expected_revision = 1 }

memories-IsUnique : IsUnique service.store.memories
unfolding lookup
memories-IsUnique = (refl, (refl, tt))

b1_stored : lookup "b1" service.store.memories ≡ some (memory bob "b1" "intensive")
unfolding lookup
b1_stored = refl

-- Ann creates, tries to change and delete what is Bob's, confirms, and clears.
abbrev session : List (Principal × Request)
session =
    (ann, creates (create "balanced") none 7 "a2")
    ∷ (ann, revokes "b1" 1 8 8)
    ∷ (ann, deletes "b1")
    ∷ (ann, confirms "p1" "r1" 9 9 "a3")
    ∷ (ann, clears)
    ∷ []

perform_all-keeps_example :
    (lookup "b1" (perform_all session service).store.memories ≡ some (memory bob "b1" "intensive"))
    × IsUnique (perform_all session service).store.memories
perform_all-keeps_example =
    perform_all-keeps "b1" (memory bob "b1" "intensive") session service memories-IsUnique b1_stored
      (refl, (refl, (refl, (refl, (refl, tt)))))

a1-IsOwn : IsOwn ann (memory ann "a1" "relaxed") service
unfolding lookup
a1-IsOwn = record { stored = refl; mine = refl }

a1_updated :
    (update ann "a1" (change none) 7 service).0
    ≡ ok (updated_memory (memory ann "a1" "relaxed") (change none) 7 (scalar (text "relaxed")))
unfolding update lookup insert get_memory save_memory
a1_updated = refl

update-stale_example :
    update ann "a1" (change none) 8 (update ann "a1" (change none) 7 service).1
    ≡ (raise stale_memory_revision, (update ann "a1" (change none) 7 service).1)
update-stale_example =
    update-stale ann (memory ann "a1" "relaxed") (change none) (change none) 7 8
      (scalar (text "relaxed")) (scalar (text "relaxed"))
      (updated_memory (memory ann "a1" "relaxed") (change none) 7 (scalar (text "relaxed"))) service
      a1-IsOwn refl a1_updated refl refl

a1_revoked : (revoke ann "a1" 1 8 9 service).0 ≡ ok (revoked_memory (memory ann "a1" "relaxed") 8 9)
unfolding revoke lookup insert get_memory save_memory
a1_revoked = refl

revoke-inactive_example :
    (◌≡◌ {A = ℕ} 2 2)
    × (lookup "a1" (revoke ann "a1" 1 8 9 service).1.store.memories
        ≡ some (revoked_memory (memory ann "a1" "relaxed") 8 9))
    × ((t : ℕ) → is_active (revoked_memory (memory ann "a1" "relaxed") 8 9) t ≡ false)
revoke-inactive_example =
    revoke-inactive ann (memory ann "a1" "relaxed") 1 8 9
      (revoked_memory (memory ann "a1" "relaxed") 8 9) service a1-IsOwn a1_revoked

a2_created :
    (create_explicit ann (create "balanced") none 7 "a2" service).0
    ≡ ok (explicit_memory ann (create "balanced") none 7 "a2" (scalar (text "balanced")))
unfolding create_explicit lookup insert validate_memory find_content_hash create_memory
    keep_or_create normalize_preference_value normalize_choice is_sensitive occurs contains
a2_created = refl

create_explicit-again_example :
    create_explicit ann
      (create "balanced")
      (some "run")
      9
      "a9"
      (create_explicit ann (create "balanced") none 7 "a2" service).1
    ≡ (
      ok (explicit_memory ann (create "balanced") none 7 "a2" (scalar (text "balanced"))),
      (create_explicit ann (create "balanced") none 7 "a2" service).1,
    )
create_explicit-again_example =
    create_explicit-again ann (create "balanced") none (some "run") 7 9 "a2" "a9"
      (explicit_memory ann (create "balanced") none 7 "a2" (scalar (text "balanced"))) service
      a2_created

p1_confirmed :
    (confirm_proposal ann "p1" "r1" 9 9 "a3" service).0 ≡ ok (proposed_memory ann proposal 9 "a3")
unfolding confirm_proposal validate_memory confirm_fresh confirm_pending get_proposal save_proposal
    find_content_hash create_memory keep_or_create lookup insert pending_at
p1_confirmed = refl

confirm_proposal-replay_example :
    confirm_proposal ann "p1" "r1" 95 95 "a4" (confirm_proposal ann "p1" "r1" 9 9 "a3" service).1
    ≡ (
      ok (proposed_memory ann proposal 9 "a3"),
      (confirm_proposal ann "p1" "r1" 9 9 "a3" service).1,
    )
confirm_proposal-replay_example =
    confirm_proposal-replay ann "p1" "r1" 9 9 95 95 "a3" "a4" service
      (proposed_memory ann proposal 9 "a3") p1_confirmed

p1_rejected : (reject_proposal ann "p1" "r2" 9 9 service).0 ≡ ok (refused_proposal proposal 9)
unfolding reject_proposal reject_fresh get_proposal save_proposal lookup insert pending_at
p1_rejected = refl

reject_proposal-replay_example :
    reject_proposal ann "p1" "r2" 95 95 (reject_proposal ann "p1" "r2" 9 9 service).1
    ≡ (ok (refused_proposal proposal 9), (reject_proposal ann "p1" "r2" 9 9 service).1)
reject_proposal-replay_example =
    reject_proposal-replay ann "p1" "r2" 9 9 95 95 service (refused_proposal proposal 9) p1_rejected

pace_normal :
    normalize_category MemoryCategory.pace (scalar (text "relaxed")) ≡ ok (scalar (text "relaxed"))
unfolding normalize_category normalize_choice contains
pace_normal = refl

normalize_category_idem_example :
    normalize_category MemoryCategory.pace (scalar (text "relaxed")) ≡ ok (scalar (text "relaxed"))
normalize_category_idem_example =
    normalize_category_idem (λ s. refl) (refl, (refl, (refl, tt))) (refl, (refl, (refl, tt)))
      MemoryCategory.pace (scalar (text "relaxed")) (scalar (text "relaxed")) pace_normal
