-- ===== src/Lifecycle/Repository.antt =====
-- lifecycle/repository.py: the in-memory class. Each method holds the lock, so it is one step.
-- Injected faults and counters are left out, and so is `updated_at`, which `save` sets.
use travel_plan_agent.Common.{
  ℕ, ◌≡◌, refl, ◌+◌, String, Option, none, some, List, [], ◌∷◌, All, ◌==◌, if◌then◌else◌, lookup,
  insert, string_eq, Result, ok, raise, Exec, pure, throw, arith, lookup-insert, str_eq_iff,
}
use travel_plan_agent.Lifecycle.Models.{PlanSessionRecord, LifecycleError, not_found, conflict}

abbrev pub Sessions : Type 0
Sessions = List (String × PlanSessionRecord)

abbrev create_over :
    PlanSessionRecord → Option PlanSessionRecord → Exec Sessions LifecycleError (Unit {0})
create_over session (some old) sessions = (raise (conflict "plan_session_conflict"), sessions)
create_over session none sessions = (ok tt, insert session.session_id session sessions)

unfoldable pub create : PlanSessionRecord → Exec Sessions LifecycleError (Unit {0})
create session sessions = create_over session (lookup session.session_id sessions) sessions

abbrev found : Option PlanSessionRecord → Exec Sessions LifecycleError PlanSessionRecord
found none = throw not_found
found (some session) = pure session

unfoldable pub get : String → Exec Sessions LifecycleError PlanSessionRecord
get session_id sessions = found (lookup session_id sessions) sessions

abbrev save_over :
    PlanSessionRecord → ℕ → Option PlanSessionRecord → Exec Sessions LifecycleError (Unit {0})
save_over session expected_revision none sessions = (raise not_found, sessions)
save_over session expected_revision (some current) sessions =
    if current.session_revision == expected_revision
    then (ok tt, insert session.session_id session sessions)
    else (raise (conflict "stale_revision"), sessions)

-- Compare-and-set on the revision.
unfoldable pub save : PlanSessionRecord → ℕ → Exec Sessions LifecycleError (Unit {0})
save session expected_revision sessions =
    save_over session expected_revision (lookup session.session_id sessions) sessions

-- Writes of one session, each by a writer that has read some revision and raises it by one. The count
-- of those that are stored comes with the sessions.
abbrev pub Write : Type 0
Write = PlanSessionRecord × ℕ

abbrev IsWriteOf : String → Write → Type 0
IsWriteOf session_id w = (w.0.session_id ≡ session_id) × (w.0.session_revision ≡ w.1 + 1)

abbrev counted : Result LifecycleError (Unit {0}) → ℕ → ℕ
counted (ok done) n = n + 1
counted (raise e) n = n

unfoldable pub run_saves : List Write → ℕ → Sessions → ℕ × Sessions
unfolding save
run_saves [] n sessions = (n, sessions)
run_saves (w ∷ writes) n sessions =
    let (r, after) = save w.0 w.1 sessions in run_saves writes (counted r n) after

abbrev revision_at : Option PlanSessionRecord → ℕ
revision_at none = 0
revision_at (some session) = session.session_revision

abbrev pub revision_of : String → Sessions → ℕ
revision_of session_id sessions = revision_at (lookup session_id sessions)

save-revision :
    (session_id : String) (w : Write) (n : ℕ) (sessions : Sessions)
    → IsWriteOf session_id w
    → revision_of session_id (save w.0 w.1 sessions).1 + n
      ≡ revision_of session_id sessions + counted (save w.0 w.1 sessions).0 n
unfolding save
save-revision session_id w n sessions h = ground (
  arith,
  str_eq_iff w.0.session_id session_id,
  lookup-insert w.0.session_id session_id w.0 sessions,
)

-- Whatever writers save a session, each with a revision that is one higher than the one it has read,
-- the revision of the session counts the writes that are stored: a write that is based on an older
-- state is never stored.
pub run_saves-revision_of :
    (session_id : String) (writes : List Write) (n : ℕ) (sessions : Sessions)
    → All (IsWriteOf session_id) writes
    → revision_of session_id (run_saves writes n sessions).1 + n
      ≡ revision_of session_id sessions + (run_saves writes n sessions).0
unfolding run_saves
run_saves-revision_of session_id [] n sessions h = refl
run_saves-revision_of session_id (w ∷ writes) n sessions (here, others) =
    let (r, after) = save w.0 w.1 sessions in
    omega (
      arith,
      save-revision session_id w n sessions here,
      run_saves-revision_of session_id writes (counted r n) after others,
    )
