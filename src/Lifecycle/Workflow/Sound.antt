-- ===== src/Lifecycle/Workflow/Sound.antt =====
-- What holds of every session that the nodes of lifecycle/workflow.py save.
pub mod Locks
pub mod Selection
pub mod Weather
pub mod Approval
pub mod Editing
pub mod Refresh
pub mod Requirement
pub mod Moves
pub mod Requests
use travel_plan_agent.Common.{
  ℕ, zero, suc, ◌+◌, ◌≤◌, ◌≡◌, refl, sym, ap, ◌∙◌, String, Bool, true, false, Option, none, some,
  List, [], ◌∷◌, ◌++◌, ◌&&◌, str_eq, str_eq_iff, ◌==◌, ==_iff, any, find, map, length, All, lookup,
  insert, delete, nat_eq, string_eq, Eq, ◌=?◌, Result, ok, and_then-ok, or_raise-ok, or_raise,
  arith, Bool-cases, inl, inr, if◌then◌else◌, lookup-insert, length-insert_new,
}
use travel_plan_agent.Planning.Models.{PlanItem, DayPlan, PlanCandidate}
use travel_plan_agent.Lifecycle.Models.{
  LockKey, PlanLock, CheckedPlan, PlanVersion, PlanPreview, PlanSessionRecord, ActionReceipt,
  LifecycleResumeRequest, lock_eq, day_lock, item_lock,
}
use travel_plan_agent.Lifecycle.Grounding.{DatedItem, items_with_id}
use travel_plan_agent.Lifecycle.Fingerprints.{Digest, day_fingerprint, item_fingerprint}
use travel_plan_agent.Lifecycle.Workflow.{
  is_selectable, has_no_plan, awaits_approval, active_version,
}
use travel_plan_agent.Lifecycle.Workflow.Selection.{has_item_id}
use travel_plan_agent.Lifecycle.Workflow.Approval.{pending_preview}

-- The versions are numbered from a number on, each the child of the one before it, and none of their
-- plans is invalid.
abbrev pub IsLine : ℕ → Option ℕ → List (ℕ × PlanVersion) → Type 0
IsLine n parent [] = Unit
IsLine n parent ((k, v) ∷ versions) =
    (k ≡ n)
    × (v.number ≡ n)
    × (v.parent_version_id ≡ parent)
    × (is_selectable v.candidate.validation ≡ true)
    × IsLine (n + 1) (some n) versions

-- The number of the last version of a line that starts with the first.
abbrev pub newest : List (ℕ × PlanVersion) → Option ℕ
newest [] = none
newest (v ∷ versions) = some (length (v ∷ versions))

module _ (digest : Digest) where
  abbrev is_day : ℕ → String → DayPlan → Bool
  is_day date fingerprint d = d.date == date && str_eq (day_fingerprint digest d) fingerprint

  abbrev is_item : String → String → DatedItem → Bool
  is_item id fingerprint e =
      has_item_id id e && str_eq (item_fingerprint digest e.1 e.0) fingerprint

  -- A plan has the day or the item of a lock, with the fingerprint that the lock expects.
  abbrev pub holds : PlanCandidate → LockKey → String → Bool
  holds candidate (LockKey.day_lock date) fingerprint = any (is_day date fingerprint) candidate.days
  holds candidate (LockKey.item_lock id) fingerprint =
      any (is_item id fingerprint) (items_with_id candidate.days)

  abbrev pub IsHeld : Option PlanVersion → LockKey × PlanLock → Type 0
  IsHeld none (key, lock) = ⊥
  IsHeld (some v) (key, lock) =
      (lock.lock_id ≡ key) × (holds v.candidate.plan key lock.expected_fingerprint ≡ true)

  abbrev pub active_in : PlanSessionRecord → Option PlanVersion
  active_in session = elim session.active_version_id [
    | none ↦ none
    | some id ↦ lookup id session.versions
  ]

  -- A preview that may be approved: it is not invalid, and it keeps the locks.
  abbrev pub IsApprovable : PlanSessionRecord → PlanPreview → Type 0
  IsApprovable session p =
      (is_selectable p.candidate.validation ≡ true)
      × All
          (λ (e : LockKey × PlanLock).
            (e.1.lock_id ≡ e.0) × (holds p.candidate.plan e.0 e.1.expected_fingerprint ≡ true))
          session.locks

  pub record IsSound (max_versions : ℕ) (session : PlanSessionRecord) : Type 0 where
    pub line : IsLine 1 none session.versions
    pub head : session.active_version_id ≡ newest session.versions
    pub within : length session.versions ≤ max_versions
    pub unselected :
        has_no_plan session.status ≡ true → (session.versions ≡ []) × (session.locks ≡ [])
    pub locked : All (IsHeld (active_in session)) session.locks
    pub pending :
        awaits_approval session.status ≡ true
        → (p : PlanPreview) → pending_preview session ≡ ok p
        → IsApprovable session p

-- What a request that is carried out does to a session: the next revision, a receipt with it, and no
-- change of the versions that were there.
pub record Advances (request : LifecycleResumeRequest) (old new : PlanSessionRecord) : Type 0 where
  pub same_id : new.session_id ≡ old.session_id
  pub revised : new.session_revision ≡ old.session_revision + 1
  pub noted :
      (r : ActionReceipt) × (lookup request.request_id new.receipts ≡ some r)
      × (r.resulting_revision ≡ new.session_revision)
  pub kept :
      (n : ℕ) (v : PlanVersion) → lookup n old.versions ≡ some v → lookup n new.versions ≡ some v

-- A line has the numbers from its first on.
pub lookup-line :
    (n : ℕ) (parent : Option ℕ) (versions : List (ℕ × PlanVersion)) (k : ℕ)
    → IsLine n parent versions
    → n + length versions ≤ k
    → lookup k versions ≡ none
unfolding lookup
lookup-line n parent [] k l h = refl
lookup-line n parent ((j, v) ∷ versions) k (at, number, up, valid, l) h =
    ground (arith, lookup-line (n + 1) (some n) versions k l (omega (arith, h)))

-- The number of the last of a line, or the parent of its first.
abbrev last_number : ℕ → Option ℕ → List (ℕ × PlanVersion) → Option ℕ
last_number n parent [] = parent
last_number n parent (v ∷ versions) = last_number (n + 1) (some n) versions

pub insert-IsLine :
    (n k : ℕ) (parent : Option ℕ) (versions : List (ℕ × PlanVersion)) (v : PlanVersion)
    → IsLine n parent versions
    → k ≡ n + length versions
    → v.number ≡ k
    → v.parent_version_id ≡ last_number n parent versions
    → is_selectable v.candidate.validation ≡ true
    → IsLine n parent (insert k v versions)
unfolding insert
insert-IsLine n k parent [] v l at number up valid =
    (omega (arith, at), omega (arith, at, number), up, valid, tt)
insert-IsLine n k parent ((j, w) ∷ versions) v (here, number', up', valid', l) at number up valid =
    let other : (j == k) ≡ false = ground (arith, at, here) in
    rw other (
      here,
      number',
      up',
      valid',
      insert-IsLine (n + 1) k (some n) versions v l (omega (arith, at)) number up valid,
    )

last_number-cons :
    (n : ℕ) (parent : Option ℕ) (v : ℕ × PlanVersion) (versions : List (ℕ × PlanVersion))
    → last_number n parent (v ∷ versions) ≡ some (n + length versions)
last_number-cons n parent v [] = ap some (omega arith)
last_number-cons n parent v (w ∷ versions) =
    last_number-cons (n + 1) (some n) w versions ∙ ap some (omega arith)

pub last_number-newest :
    (versions : List (ℕ × PlanVersion)) → last_number 1 none versions ≡ newest versions
last_number-newest [] = refl
last_number-newest (v ∷ versions) = last_number-cons 1 none v versions ∙ ap some (omega arith)

-- The versions of a line stay where they are when the next one comes.
pub lookup-next :
    (versions : List (ℕ × PlanVersion)) (v w : PlanVersion) (k : ℕ)
    → IsLine 1 none versions
    → lookup k versions ≡ some w
    → lookup k (insert (length versions + 1) v versions) ≡ some w
lookup-next versions v w k l h =
    let new = lookup-line 1 none versions (length versions + 1) l (omega arith) in
    ground (
      arith,
      h,
      new,
      lookup-insert (length versions + 1) k v versions,
      ==_iff (length versions + 1) k,
    )

pub newest-next :
    (versions : List (ℕ × PlanVersion)) (v : PlanVersion)
    → IsLine 1 none versions
    → newest (insert (length versions + 1) v versions) ≡ some (length versions + 1)
newest-next versions v l = counted (insert (length versions + 1) v versions) (
    length-insert_new (length versions + 1) v versions
      (lookup-line 1 none versions (length versions + 1) l (omega arith)))
  where
    counted :
        (m : List (ℕ × PlanVersion))
        → length m ≡ length versions + 1
        → newest m ≡ some (length versions + 1)
    counted [] h = absurd (omega (arith, h))
    counted (w ∷ m) h = ap some h
