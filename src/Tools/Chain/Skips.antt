-- ===== src/Tools/Chain/Skips.antt =====
-- A call through a chain against a description without circuits and clocks.
use mathlib.Core.List.{append_assoc}
use travel_plan_agent.Common.{
  ℕ, ◌+◌, ◌≡◌, refl, ap, ◌∙◌, String, Bool, true, false, none, some, List, [], ◌∷◌, ◌++◌, map,
  filter, leb, if◌then◌else◌, str_eq_iff, Result, arith, Bool-cases, inl, inr, fun_ext,
}
use travel_plan_agent.Tools.Errors.{Answer, value, fault, crash}
use travel_plan_agent.Common.{ok, raise, Result}
use travel_plan_agent.Tools.Errors.{Answer, value, fault, crash}
use travel_plan_agent.Tools.Chain.{uncaught, provider_error, ChainError, note_failure}
use travel_plan_agent.Tools.Chain.{
  may_failover, Circuit, Chain, ChainError, is_open, note_failure, note_success, available, begin,
  try_each, last, or_last, execute,
}

-- How a call ends with the answer of its last provider.
abbrev pub verdict : {A : Type 0} → Answer A → Result ChainError A
verdict (value a) = ok a
verdict (crash m) = raise (uncaught m)
verdict (fault e) = raise (provider_error e)

note_failure-attempted : (name : String) (s : Chain) → (note_failure name s).attempted ≡ s.attempted
unfolding note_failure
note_failure-attempted name s = ground arith

-- A circuit that lets a call through at a time.
abbrev pub is_free : ℕ → Circuit → Bool
is_free now c = elim c.open_until [ none ↦ true | some until ↦ leb until now ]

is_free-is_open :
    (name n : String) (now : ℕ) (s : Chain)
    → is_free now ((is_open name now s).1.circuits n) ≡ is_free now (s.circuits n)
unfolding is_open
is_free-is_open name n now s = ground (arith, str_eq_iff n name)

is_open-is_free :
    (name : String) (now : ℕ) (s : Chain)
    → (is_open name now s).0 ≡ (if is_free now (s.circuits name) then false else true)
unfolding is_open
is_open-is_free name now s = ground arith

attempted-is_open :
    (name : String) (now : ℕ) (s : Chain) → (is_open name now s).1.attempted ≡ s.attempted
unfolding is_open
attempted-is_open name now s = ground arith

abbrev pub fails_over {ℓ} : {A : Type ℓ} → Answer A → Bool
fails_over (value a) = false
fails_over (crash m) = false
fails_over (fault e) = may_failover e.category

module _ {P A : Type 0} (name : P → String) (call : P → Answer A) where
  abbrev pub free : ℕ → Chain → P → Bool
  free now s p = is_free now (s.circuits (name p))

  available-free :
      (ps : List P) (now : ℕ) (s : Chain)
      → (available name call ps now s).0 ≡ filter (free now s) ps
  unfolding available
  available-free [] now s = refl
  available-free (p ∷ ps) now s =
      let s₁ = (is_open (name p) now s).1 in
      let same : free now s₁ ≡ free now s = fun_ext λ q. is_free-is_open (name p) (name q) now s in
      rw (available-free ps now s₁, same) (ground (arith, is_open-is_free (name p) now s))

  attempted-available :
      (ps : List P) (now : ℕ) (s : Chain) → (available name call ps now s).1.attempted ≡ s.attempted
  unfolding available
  attempted-available [] now s = refl
  attempted-available (p ∷ ps) now s =
      attempted-available ps now (is_open (name p) now s).1 ∙ attempted-is_open (name p) now s

  -- The providers that are asked, of those that may be.
  abbrev pub asked : List P → List P
  asked [] = []
  asked (p ∷ ps) = let rest = asked ps in if fails_over (call p) then p ∷ rest else p ∷ []

  -- How the call ends, of the providers that may be asked.
  abbrev pub outcome : P → List P → Result ChainError A
  outcome p [] = verdict (call p)
  outcome p (q ∷ ps) =
      let rest = outcome q ps in if fails_over (call p) then rest else verdict (call p)

  abbrev Described : P → List P → Chain → Type 0
  Described p ps s =
      ((try_each name call (p ∷ ps) s).0 ≡ outcome p ps)
      × ((try_each name call (p ∷ ps) s).1.attempted ≡ s.attempted ++ map name (asked (p ∷ ps)))

  round-Described :
      (p q : P) (ps : List P) (o : Answer A) (s : Chain)
      → call p ≡ o
      → ((t : Chain) → Described q ps t)
      → Described p (q ∷ ps) s
  unfolding try_each
  round-Described p q ps (value a) s e later = rw (e, try_each) (refl, unfold note_success in refl)
  round-Described p q ps (crash m) s e later = rw (e, try_each) (refl, refl)
  round-Described p q ps (fault f) s e later =
      let s' = note_failure (name p) (begin name call p s) in
      let same = note_failure-attempted (name p) (begin name call p s) in
      let (result, trace) = later s' in
      elim (Bool-cases (may_failover f.category)) [
        | inl go ↦ rw (e, try_each, go) (result, trace ∙ rw (same, append_assoc))
        | inr stop ↦ rw (e, try_each, stop) (refl, same)
      ]

  last-Described : (p : P) (o : Answer A) (s : Chain) → call p ≡ o → Described p [] s
  unfolding try_each
  last-Described p (value a) s e = rw (e, try_each) (refl, unfold note_success in refl)
  last-Described p (crash m) s e = rw (e, try_each) (refl, refl)
  last-Described p (fault f) s e =
      let same = note_failure-attempted (name p) (begin name call p s) in
      rw (e, try_each) (refl, ground (arith, same))

  try_each-Described : (p : P) (ps : List P) (s : Chain) → Described p ps s
  try_each-Described p [] s = last-Described p (call p) s refl
  try_each-Described p (q ∷ ps) s = round-Described p q ps (call p) s refl (try_each-Described q ps)

  or_last_cons :
      (p : P) (ps free : List P)
      → (a : P) × (rest : List P) × (or_last name call p ps free ≡ a ∷ rest)
  or_last_cons p ps [] = (last name call p ps, [], refl)
  or_last_cons p ps (a ∷ rest) = (a, rest, refl)

  -- A call through the chain asks the providers whose circuits are closed or have recovered at the
  -- start, or the last one if there is none, in order until an answer does not fail over. It ends
  -- with the answer of the last provider asked, so never by the assertion behind the loop, and
  -- neither the circuits nor the clock change this while it runs.
  pub execute-outcome :
      (p : P) (ps : List P) (s : Chain)
      → (a : P) × (rest : List P) × (or_last name call p ps
            (filter (free (s.clock s.reads) s) (p ∷ ps))
          ≡ a ∷ rest)
        × ((execute name call p ps s).0 ≡ outcome a rest)
        × ((execute name call p ps s).1.attempted ≡ s.attempted ++ map name (asked (a ∷ rest)))
  unfolding execute
  execute-outcome p ps s =
      let now = s.clock s.reads in
      let s₀ : Chain = record s { reads = s.reads + 1 } in
      let s₁ = (available name call (p ∷ ps) now s₀).1 in
      let kept : (available name call (p ∷ ps) now s₀).0 ≡ filter (free now s) (p ∷ ps) =
        available-free (p ∷ ps) now s₀ in
      let (a, rest, e) = or_last_cons p ps (filter (free now s) (p ∷ ps)) in
      let (result, trace) = try_each-Described a rest s₁ in
      (
        a,
        rest,
        e,
        rw (kept, e) result,
        rw (kept, e)
            (trace
              ∙ ap (λ l. l ++ map name (asked (a ∷ rest))) (attempted-available (p ∷ ps) now s₀)),
      )
