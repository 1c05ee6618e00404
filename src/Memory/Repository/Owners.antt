-- ===== src/Memory/Repository/Owners.antt =====
-- What the methods of the repository leave alone: the memories of other owners.
use travel_plan_agent.Common.{
  ℕ, ◌≡◌, refl, String, Bool, true, false, none, some, List, [], ◌∷◌, not, ◌==◌, str_eq_iff,
  if◌then◌else◌, Result, ok, raise, lookup, insert, delete, lookup-insert, lookup-delete, string_eq,
  arith, Option-cases, inl, inr, contains, ◌∙◌, continue,
}
use travel_plan_agent.Common.Dict.Unique.{IsUnique, insert-IsUnique, delete-IsUnique}
use travel_plan_agent.Memory.Models.{
  PreferenceMemory, MemoryError, not_found, stale_memory_revision,
}
use travel_plan_agent.Memory.Repository.{
  Store, owns, owned, get_memory, create_memory, save_memory, remove_memory, delete_memory,
  delete_all, owned_ids, clear_memories,
}

-- A memory that is stored under `id`, and is not the user's.
pub record IsForeign (tenant user id : String) (m : PreferenceMemory) (s : Store) : Type 0 where
  pub stored : lookup id s.memories ≡ some m
  pub foreign : owns tenant user m ≡ false

module _ (tenant user id : String) (m : PreferenceMemory) {s : Store}
    (f : IsForeign tenant user id m s) where
  pub create_memory-keeps :
      (new : PreferenceMemory) → IsForeign tenant user id m (create_memory new s).1
  unfolding create_memory
  create_memory-keeps new = record {
    stored = ground (
      arith,
      f.stored,
      lookup-insert new.memory_id id new s.memories,
      str_eq_iff new.memory_id id,
    );
    foreign = f.foreign;
  }

  pub save_memory-keeps :
      (new : PreferenceMemory) (expected : ℕ)
      → owns tenant user new ≡ true
      → IsForeign tenant user id m (save_memory new expected s).1
  unfolding save_memory
  save_memory-keeps new expected mine = record {
    stored = ground (
      arith,
      f.stored,
      f.foreign,
      lookup-insert new.memory_id id new s.memories,
      str_eq_iff new.memory_id id,
      str_eq_iff new.tenant_id tenant,
      str_eq_iff new.user_id user,
    );
    foreign = f.foreign;
  }

  pub delete_memory-keeps :
      (key : String) → IsForeign tenant user id m (delete_memory tenant user key s).1
  unfolding delete_memory get_memory
  delete_memory-keeps key = record {
    stored =
        ground (arith, f.stored, f.foreign, lookup-delete key id s.memories, str_eq_iff key id);
    foreign = f.foreign;
  }

-- The keys of a user's items hold no key of another's item.
owned_ids_lem :
    (tenant user id : String) (m : PreferenceMemory) (l : List (String × PreferenceMemory))
    → IsUnique l
    → lookup id l ≡ some m
    → owns tenant user m ≡ false
    → contains id (owned_ids tenant user l) ≡ false
unfolding contains lookup
owned_ids_lem tenant user id m [] u h f = refl
owned_ids_lem tenant user id m ((k, n) ∷ l) (fresh, u) h f = ground (
  arith,
  str_eq_iff k id,
  str_eq_iff id k,
  owned_ids_lem tenant user id m l u,
  owned_ids_absent tenant user k l fresh,
)
  where
    owned_ids_absent :
        (t us key : String) (r : List (String × PreferenceMemory))
        → lookup key r ≡ none
        → contains key (owned_ids t us r) ≡ false
    owned_ids_absent t us key [] e = refl
    owned_ids_absent t us key ((j, n') ∷ r) e =
        ground (arith, str_eq_iff j key, str_eq_iff key j, owned_ids_absent t us key r)

lookup-delete_all :
    {V : Type 0} (id : String) (ks : List String) (l : List (String × V))
    → contains id ks ≡ false
    → lookup id (delete_all ks l) ≡ lookup id l
unfolding contains
lookup-delete_all id [] l h = refl
lookup-delete_all id (k ∷ ks) l h =
    lookup-delete_all id ks (delete k l) (ground arith)
    ∙ ground (arith, lookup-delete k id l, str_eq_iff id k, str_eq_iff k id)

pub clear_memories-keeps :
    (tenant user id : String) (m : PreferenceMemory) {s : Store}
    → IsUnique s.memories
    → IsForeign tenant user id m s
    → IsForeign tenant user id m (clear_memories tenant user s).1
unfolding clear_memories
clear_memories-keeps tenant user id m {s} u f = record {
  stored =
      lookup-delete_all id (owned_ids tenant user s.memories) s.memories
        (owned_ids_lem tenant user id m s.memories u f.stored f.foreign)
      ∙ f.stored;
  foreign = f.foreign;
}

delete_all-IsUnique :
    {V : Type 0} (ks : List String) (l : List (String × V))
    → IsUnique l
    → IsUnique (delete_all ks l)
delete_all-IsUnique [] l u = u
delete_all-IsUnique (k ∷ ks) l u = delete_all-IsUnique ks (delete k l) (delete-IsUnique k l u)

abbrev pub HasUniqueMemories : Store → Type 0
HasUniqueMemories s = IsUnique s.memories

-- A property of the state after each branch of two tests.
branches :
    {A : Type 0} (P : Store → Type 0) (a b : Bool) (x y z : A × Store)
    → P x.1
    → P y.1
    → P z.1
    → P (if a then x else if b then y else z).1
branches P true b x y z px py pz = px
branches P false true x y z px py pz = py
branches P false false x y z px py pz = pz

module _ (s : Store) (u : HasUniqueMemories s) where
  pub create_memory_unique : (new : PreferenceMemory) → HasUniqueMemories (create_memory new s).1
  unfolding create_memory
  create_memory_unique new = elim (Option-cases (lookup new.memory_id s.memories)) [
    | inl e ↦ rw (e, create_memory) (insert-IsUnique new.memory_id new s.memories u)
    | inr (old, e) ↦ rw (e, create_memory) u
  ]

  pub save_memory_unique :
      (new : PreferenceMemory) (expected : ℕ) → HasUniqueMemories (save_memory new expected s).1
  unfolding save_memory
  save_memory_unique new expected = elim (Option-cases (lookup new.memory_id s.memories)) [
    | inl e ↦ rw (e, save_memory) u
    | inr (old, e) ↦
        rw (e, save_memory)
          (branches HasUniqueMemories (not (owns new.tenant_id new.user_id old))
            (not (old.revision == expected)) (raise (not_found new.memory_id), s)
            (raise stale_memory_revision, s)
            (ok tt, record s { memories = insert new.memory_id new s.memories }) u u
            (insert-IsUnique new.memory_id new s.memories u))
  ]

  pub delete_memory_unique :
      (tenant user key : String) → HasUniqueMemories (delete_memory tenant user key s).1
  unfolding delete_memory get_memory
  delete_memory_unique tenant user key = removed (owned tenant user key (lookup key s.memories))
    where
      removed :
          (r : Result MemoryError PreferenceMemory)
          → HasUniqueMemories (continue r (λ _. remove_memory key) s).1
      removed (ok m) = delete-IsUnique key s.memories u
      removed (raise e) = u

  pub clear_memories_unique :
      (tenant user : String) → HasUniqueMemories (clear_memories tenant user s).1
  unfolding clear_memories
  clear_memories_unique tenant user =
      delete_all-IsUnique (owned_ids tenant user s.memories) s.memories u
