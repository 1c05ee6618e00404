-- ===== src/Memory/Service/Keeps.antt =====
-- Properties of the store that an action of the service keeps, whether it returns or raises.
use travel_plan_agent.Common.{
  ◌≡◌, refl, String, Bool, true, false, if◌then◌else◌, Result, ok, raise, continue, pure, throw,
  ◌>>=◌, ◌>>◌, lookup, string_eq, arith,
}
use travel_plan_agent.Memory.Models.{PreferenceMemory, Principal, MemoryError}
use travel_plan_agent.Memory.Repository.{Store, StoreM, owns, owned, get_memory}
use travel_plan_agent.Memory.Service.{
  Service, ServiceM, on_store, lift, decide, decided, DecisionKey, Decision, find_hash, get,
}

pub record Keeps {A : Type 0} (P : Store → Type 0) (m : ServiceM A) : Type 0 where
  pub at : (s : Service) → P s.store → P (m s).1.store

module _ {P : Store → Type 0} where
  pub Keeps-pure : {A : Type 0} (a : A) → Keeps P (pure a)
  Keeps-pure a = record { at = λ s h. h }

  pub Keeps-throw : {A : Type 0} (e : MemoryError) → Keeps {A = A} P (throw e)
  Keeps-throw e = record { at = λ s h. h }

  pub Keeps-lift : {A : Type 0} (r : Result MemoryError A) → Keeps P (lift r)
  Keeps-lift r = record { at = λ s h. h }

  pub Keeps-find_hash : (who : Principal) (hash : String) → Keeps P (find_hash who hash)
  Keeps-find_hash who hash = record { at = λ s h. h }

  pub Keeps-decide : (k : DecisionKey) (d : Decision) → Keeps P (decide k d)
  Keeps-decide k d = record { at = λ s h. h }

  pub Keeps-decided : (k : DecisionKey) → Keeps P (decided k)
  Keeps-decided k = record { at = λ s h. h }

  pub Keeps-on_store :
      {A : Type 0} (m : StoreM A) → ((t : Store) → P t → P (m t).1) → Keeps P (on_store m)
  Keeps-on_store m k = record { at = λ s h. k s.store h }

  pub Keeps-if :
      {A : Type 0} (b : Bool) (m n : ServiceM A)
      → Keeps P m
      → Keeps P n
      → Keeps P (if b then m else n)
  Keeps-if true m n km kn = km
  Keeps-if false m n km kn = kn

  Keeps-continue :
      {A B : Type 0} (r : Result MemoryError A) (f : A → ServiceM B)
      → ((a : A) → r ≡ ok a → Keeps P (f a))
      → Keeps P (continue r f)
  Keeps-continue (ok a) f k = record { at = (k a refl).at }
  Keeps-continue (raise e) f k = record { at = λ s h. h }

  pub Keeps-bind :
      {A B : Type 0} (m : ServiceM A) (f : A → ServiceM B)
      → Keeps P m
      → ((a : A) → Keeps P (f a))
      → Keeps P (m >>= f)
  Keeps-bind m f km kf = record {
    at = λ s h. (Keeps-continue (m s).0 f (λ a _. kf a)).at (m s).1 (km.at s h);
  }

  -- The memory that `get` returns is the principal's, and is the stored one.
  pub Keeps-bind-get :
      {B : Type 0} (who : Principal) (id : String) (f : PreferenceMemory → ServiceM B)
      → ((m : PreferenceMemory) → owns who.tenant_id who.user_id m ≡ true → Keeps P (f m))
      → Keeps P (get who id >>= f)
  unfolding get get_memory
  Keeps-bind-get who id f kf = record {
    at = λ s h.
        (Keeps-continue (owned who.tenant_id who.user_id id (lookup id s.store.memories)) f
            (λ m e. kf m (ground (arith, e)))).at
          s h;
  }

  pub Keeps-get : (who : Principal) (id : String) → Keeps P (get who id)
  unfolding get get_memory
  Keeps-get who id = record { at = λ s h. h }

  -- A call of the repository, and a value.
  pub Keeps-stored :
      {A B : Type 0} (m : StoreM A) (b : B)
      → ((t : Store) → P t → P (m t).1)
      → Keeps P (on_store m >> pure b)
  Keeps-stored m b k =
      Keeps-bind (on_store m) (λ _. pure b) (Keeps-on_store m k) (λ _. Keeps-pure b)
