-- ===== src/Memory/Service/Memories.antt =====
-- The calls on single memories: concurrent updates, revocation, and creation that is repeated.
use travel_plan_agent.Common.{
  ℕ, ◌+◌, ◌==◌, ◌≡◌, ◌∙◌, refl, String, Bool, true, false, Option, none, some, List, [], ◌∷◌,
  if◌then◌else◌, ◌&&◌, Result, ok, raise, lookup, insert, lookup-insert, beq_refl, string_eq,
  str_eq, str_eq_iff, arith, find,
}
use travel_plan_agent.Common.Text.{Unicode}
use travel_plan_agent.Memory.Models.{
  PreferenceMemory, PreferenceValue, Principal, MemoryError, stale_memory_revision, is_active,
  is_none, validate_memory,
}
use travel_plan_agent.Memory.Policy.{Encoding, normalize_preference_value, preference_content_hash}
use travel_plan_agent.Memory.Repository.{
  owns, values, get_memory, save_memory, create_memory, find_content_hash,
}
use travel_plan_agent.Memory.Service.{
  Service, get, keep_or_create, explicit_memory, create_explicit, PreferenceCreateRequest,
  PreferenceUpdateRequest, updated_value, updated_memory, update, revoked_memory, revoke,
}

-- A memory of the principal that is stored under its own identifier.
pub record IsOwn (who : Principal) (m : PreferenceMemory) (s : Service) : Type 0 where
  pub stored : lookup m.memory_id s.store.memories ≡ some m
  pub mine : owns who.tenant_id who.user_id m ≡ true

-- The compare-and-set of the revision.
abbrev saved :
    PreferenceMemory
    → PreferenceMemory
    → ℕ
    → Service
    → Result MemoryError PreferenceMemory × Service
saved m new expected s =
    if m.revision == expected
    then (
      ok new,
      record s { store = record s.store { memories = insert m.memory_id new s.store.memories } },
    )
    else (raise stale_memory_revision, s)

module _ ⦃u : Unicode⦄ ⦃enc : Encoding⦄ (who : Principal) (m : PreferenceMemory) where
  update_lem :
      (r : PreferenceUpdateRequest) (now : ℕ) (v : PreferenceValue) (s : Service)
      → IsOwn who m s
      → updated_value m.category r.value m.value ≡ ok v
      → update who m.memory_id r now s ≡ saved m (updated_memory m r now v) r.expected_revision s
  unfolding update get get_memory save_memory
  update_lem r now v s own valid = ground (
    arith,
    own.stored,
    own.mine,
    valid,
    str_eq_iff m.tenant_id m.tenant_id,
    str_eq_iff m.user_id m.user_id,
  )

  revoke_lem :
      (expected now later : ℕ) (s : Service)
      → IsOwn who m s
      → revoke who m.memory_id expected now later s
        ≡ saved m (revoked_memory m now later) expected s
  unfolding revoke get get_memory save_memory
  revoke_lem expected now later s own = ground (
    arith,
    own.stored,
    own.mine,
    str_eq_iff m.tenant_id m.tenant_id,
    str_eq_iff m.user_id m.user_id,
  )

-- What a successful compare-and-set says.
saved_ok :
    (m new n : PreferenceMemory) (expected : ℕ) (s : Service)
    → new.memory_id ≡ m.memory_id
    → (saved m new expected s).0 ≡ ok n
    → (n ≡ new)
      × (m.revision ≡ expected)
      × (lookup new.memory_id (saved m new expected s).1.store.memories ≡ some new)
saved_ok m new n expected s same h = (
  ground arith,
  ground arith,
  ground (
    arith,
    same,
    lookup-insert m.memory_id m.memory_id new s.store.memories,
    beq_refl m.memory_id,
  ),
)

module _ ⦃u : Unicode⦄ ⦃enc : Encoding⦄ (who : Principal) (m : PreferenceMemory) where
  -- Of two updates of one memory that expect the same revision, the second is refused as stale and
  -- changes nothing once the first has returned, if the value of the second is accepted by the
  -- policy.
  pub update-stale :
      (r r' : PreferenceUpdateRequest) (now now' : ℕ) (v v' : PreferenceValue)
      (n : PreferenceMemory) (s : Service)
      → IsOwn who m s
      → updated_value m.category r.value m.value ≡ ok v
      → (update who m.memory_id r now s).0 ≡ ok n
      → updated_value m.category r'.value v ≡ ok v'
      → r'.expected_revision ≡ r.expected_revision
      → update who m.memory_id r' now' (update who m.memory_id r now s).1
        ≡ (raise stale_memory_revision, (update who m.memory_id r now s).1)
  update-stale r r' now now' v v' n s own valid done valid' same =
      let new = updated_memory m r now v in
      let s' = (update who m.memory_id r now s).1 in
      let step = update_lem who m r now v s own valid in
      let (_, fit, there) = saved_ok m new n r.expected_revision s refl (rw step at done) in
      let own' : IsOwn who new s' = record { stored = rw step there; mine = own.mine } in
      update_lem who new r' now' v' s' own' valid' ∙ ground (arith, fit, same)

  -- A revocation that returns has raised the revision by one, from the one it expected, and has
  -- stored a memory that is not active at any time, whatever it expires at.
  pub revoke-inactive :
      (expected now later : ℕ) (n : PreferenceMemory) (s : Service)
      → IsOwn who m s
      → (revoke who m.memory_id expected now later s).0 ≡ ok n
      → (n.revision ≡ expected + 1)
        × (lookup m.memory_id (revoke who m.memory_id expected now later s).1.store.memories
            ≡ some n)
        × ((t : ℕ) → is_active n t ≡ false)
  unfolding is_active
  revoke-inactive expected now later n s own done =
      let new = revoked_memory m now later in
      let step = revoke_lem who m expected now later s own in
      let (same, fit, there) = saved_ok m new n expected s refl (rw step at done) in
      (ground (arith, same, fit), ground (arith, step, there, same), λ t. rw same (ground arith))

-- A new item is found where no old one was.
find-insert :
    {V : Type 0} (p : V → Bool) (k : String) (v : V) (l : List (String × V))
    → lookup k l ≡ none
    → find p (values l) ≡ none
    → p v ≡ true
    → find p (values (insert k v l)) ≡ some v
unfolding lookup insert
find-insert p k v [] fresh absent h = ground arith
find-insert p k v ((j, w) ∷ l) fresh absent h = ground (arith, find-insert p k v l)

module _ ⦃u : Unicode⦄ ⦃enc : Encoding⦄ (who : Principal) (r : PreferenceCreateRequest) where
  create_lem :
      (run : Option String) (now : ℕ) (new : String) (v : PreferenceValue) (s : Service)
      → normalize_preference_value r.category r.value ≡ ok v
      → create_explicit who r run now new s
        ≡ keep_or_create
            (find_content_hash who.tenant_id who.user_id
              (preference_content_hash r.category v r.scope r.scope_key)
              s.store)
            (explicit_memory who r run now new v)
            s
  unfolding create_explicit
  create_lem run now new v s valid = rw valid

  kept_lem :
      (m n : PreferenceMemory) (s : Service) (o : Option PreferenceMemory)
      → owns who.tenant_id who.user_id m ≡ true
      → m.revoked_at ≡ none
      → find_content_hash who.tenant_id who.user_id m.content_hash s.store ≡ o
      → (keep_or_create o m s).0 ≡ ok n
      → find_content_hash who.tenant_id who.user_id m.content_hash (keep_or_create o m s).1.store
        ≡ some n
  unfolding keep_or_create validate_memory create_memory find_content_hash
  kept_lem m n s (some old) mine live found done = ground (arith, found)
  kept_lem m n s none mine live absent done =
      let p = λ (x : PreferenceMemory).
        owns who.tenant_id who.user_id x
        && str_eq x.content_hash m.content_hash
        && is_none x.revoked_at in
      ground (
        arith,
        mine,
        live,
        str_eq_iff m.content_hash m.content_hash,
        find-insert p m.memory_id m s.store.memories,
      )

  -- A creation that has returned a memory, sent again by the same principal, returns the same
  -- memory and stores nothing, whatever the clock reads and the new identifier is.
  pub create_explicit-again :
      (run run' : Option String) (now now' : ℕ) (new new' : String) (n : PreferenceMemory)
      (s : Service)
      → (create_explicit who r run now new s).0 ≡ ok n
      → create_explicit who r run' now' new' (create_explicit who r run now new s).1
        ≡ (ok n, (create_explicit who r run now new s).1)
  unfolding create_explicit
  create_explicit-again run run' now now' new new' n s done =
      normalized (normalize_preference_value r.category r.value) refl
    where
      normalized :
          (q : Result MemoryError PreferenceValue)
          → normalize_preference_value r.category r.value ≡ q
          → create_explicit who r run' now' new' (create_explicit who r run now new s).1
            ≡ (ok n, (create_explicit who r run now new s).1)
      normalized (raise e) refused = absurd (cc)
      normalized (ok v) valid =
          let m = explicit_memory who r run now new v in
          let step = create_lem run now new v s valid in
          let mine : owns who.tenant_id who.user_id m ≡ true =
            ground (arith, str_eq_iff m.tenant_id m.tenant_id, str_eq_iff m.user_id m.user_id) in
          let found =
            kept_lem m n s (find_content_hash who.tenant_id who.user_id m.content_hash s.store) mine
              refl refl (rw step at done) in
          create_lem run' now' new' v (create_explicit who r run now new s).1 valid
          ∙ rw (step, found, keep_or_create)
