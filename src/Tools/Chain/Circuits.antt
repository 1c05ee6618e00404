-- ===== src/Tools/Chain/Circuits.antt =====
-- The circuits of a chain, and which providers a call of the chain reaches.
use travel_plan_agent.Common.{
  ℕ, suc, ◌+◌, ◌≤◌, ◌<◌, ◌≡◌, inl, inr, String, Bool, true, false, none, some, leb, ltb,
  if◌then◌else◌, str_eq, str_eq_iff, arith, Bool-cases, Option-cases,
}
use travel_plan_agent.Tools.Chain.{
  Circuit, closed, Chain, set_circuit, is_open, note_failure, note_success,
}

-- What a failure does to the circuit of its provider: at the threshold it opens, until the recovery
-- time has passed from the reading of the clock; below the threshold it stays as it was.
pub is_open-note_failure :
    (name : String) (now : ℕ) (s : Chain)
    → (is_open name now (note_failure name s)).0 ≡ (
        if leb s.failure_threshold (suc (s.circuits name).failures)
        then ltb now (s.clock s.reads + s.recovery_seconds)
        else (is_open name now s).0)
unfolding is_open note_failure
is_open-note_failure name now s = ground (arith, str_eq_iff name name)

-- A circuit is open exactly if its failures have reached the threshold.
pub record IsConsistent (threshold : ℕ) (c : Circuit) : Type 0 where
  pub shut : c.open_until ≡ none → c.failures < threshold
  pub opened : (t : ℕ) → c.open_until ≡ some t → threshold ≤ c.failures

closed-IsConsistent : (threshold : ℕ) → 0 < threshold → IsConsistent threshold closed
closed-IsConsistent threshold h = record { shut = λ _. h; opened = λ t e. cc }

pub record AreConsistent (s : Chain) : Type 0 where
  pub positive : 0 < s.failure_threshold
  pub each : (n : String) → IsConsistent s.failure_threshold (s.circuits n)

set_circuit-AreConsistent :
    (name : String) (c : Circuit) {s : Chain}
    → AreConsistent s
    → IsConsistent s.failure_threshold c
    → AreConsistent (set_circuit name c s)
set_circuit-AreConsistent name c {s} h k = record {
  positive = h.positive;
  each = λ n. at n (str_eq n name);
}
  where
    at : (n : String) (b : Bool) → IsConsistent s.failure_threshold (if b then c else s.circuits n)
    at n true = k
    at n false = h.each n

pub note_success-AreConsistent :
    (name : String) {s : Chain} → AreConsistent s → AreConsistent (note_success name s)
unfolding note_success
note_success-AreConsistent name {s} h =
    set_circuit-AreConsistent name closed h (closed-IsConsistent s.failure_threshold h.positive)

pub note_failure-AreConsistent :
    (name : String) {s : Chain} → AreConsistent s → AreConsistent (note_failure name s)
unfolding note_failure
note_failure-AreConsistent name {s} h = elim (Bool-cases test) [
  | inl e ↦ rw e (
      set_circuit-AreConsistent name _ {s = record s { reads = s.reads + 1 }}
        (record { positive = h.positive; each = h.each })
        (record { shut = λ q. cc; opened = λ t q. ground arith }))
  | inr e ↦ rw e (
      set_circuit-AreConsistent name _ h (record {
        shut = λ q. ground arith;
        opened = λ t q. ground (arith, (h.each name).opened t);
      }))
]
  where
    test : Bool
    test = leb s.failure_threshold (suc (s.circuits name).failures)

pub is_open-AreConsistent :
    (name : String) (now : ℕ) {s : Chain} → AreConsistent s → AreConsistent (is_open name now s).1
unfolding is_open
is_open-AreConsistent name now {s} h = elim (Option-cases (s.circuits name).open_until) [
  | inl e ↦ rw (e, is_open) h
  | inr (t, e) ↦ elim (Bool-cases (leb t now)) [
    | inl late ↦
        rw (e, is_open, late)
          (set_circuit-AreConsistent name closed h
            (closed-IsConsistent s.failure_threshold h.positive))
    | inr early ↦ rw (e, is_open, early) h
  ]
]
