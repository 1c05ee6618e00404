-- ===== src/Tools/Chain/Failover.antt =====
-- A call through a chain keeps its circuits consistent.
use travel_plan_agent.Common.{ℕ, ◌+◌, ◌≡◌, inl, inr, refl, String, List, [], ◌∷◌, Bool-cases}
use travel_plan_agent.Tools.Errors.{Answer, value, fault, crash}
use travel_plan_agent.Tools.Chain.{may_failover, Chain, available, begin, try_each, execute}
use travel_plan_agent.Tools.Chain.Circuits.{
  AreConsistent, is_open-AreConsistent, note_failure-AreConsistent, note_success-AreConsistent,
}

module _ {P A : Type 0} (name : P → String) (call : P → Answer A) where
  begin-AreConsistent : (p : P) {s : Chain} → AreConsistent s → AreConsistent (begin name call p s)
  begin-AreConsistent p h = record { positive = h.positive; each = h.each }

  -- One provider, from its answer and what the providers behind it keep.
  round-AreConsistent :
      (p : P) (post : List P) (o : Answer A) {s : Chain}
      → call p ≡ o
      → AreConsistent s
      → ((t : Chain) → AreConsistent t → AreConsistent (try_each name call post t).1)
      → AreConsistent (try_each name call (p ∷ post) s).1
  unfolding try_each
  round-AreConsistent p [] (value a) e h later =
      rw (e, try_each) (note_success-AreConsistent (name p) (begin-AreConsistent p h))
  round-AreConsistent p (q ∷ qs) (value a) e h later =
      rw (e, try_each) (note_success-AreConsistent (name p) (begin-AreConsistent p h))
  round-AreConsistent p [] (crash m) e h later = rw (e, try_each) (begin-AreConsistent p h)
  round-AreConsistent p (q ∷ qs) (crash m) e h later = rw (e, try_each) (begin-AreConsistent p h)
  round-AreConsistent p [] (fault f) e h later =
      rw (e, try_each) (note_failure-AreConsistent (name p) (begin-AreConsistent p h))
  round-AreConsistent p (q ∷ qs) (fault f) e h later =
      let noted = note_failure-AreConsistent (name p) (begin-AreConsistent p h) in
      elim (Bool-cases (may_failover f.category)) [
        | inl go ↦ rw (e, try_each, go) (later _ noted)
        | inr stop ↦ rw (e, try_each, stop) noted
      ]

  try_each-AreConsistent :
      (ps : List P) (s : Chain) → AreConsistent s → AreConsistent (try_each name call ps s).1
  unfolding try_each
  try_each-AreConsistent [] s h = h
  try_each-AreConsistent (p ∷ ps) s h =
      round-AreConsistent p ps (call p) refl h (try_each-AreConsistent ps)

  available-AreConsistent :
      (ps : List P) (now : ℕ) {s : Chain}
      → AreConsistent s
      → AreConsistent (available name call ps now s).1
  unfolding available
  available-AreConsistent [] now h = h
  available-AreConsistent (p ∷ ps) now h =
      available-AreConsistent ps now (is_open-AreConsistent (name p) now h)

  -- After any call through the chain, whatever its providers answer, each circuit is open exactly
  -- if its failures have reached the threshold, if it was so before.
  pub execute-AreConsistent :
      (p : P) (ps : List P) (s : Chain)
      → AreConsistent s
      → AreConsistent (execute name call p ps s).1
  unfolding execute
  execute-AreConsistent p ps s h = try_each-AreConsistent _ _ (
      available-AreConsistent (p ∷ ps) (s.clock s.reads) {s = record s { reads = s.reads + 1 }}
        (record { positive = h.positive; each = h.each }))
