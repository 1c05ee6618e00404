-- ===== src/Tools/Chain/Tests.antt =====
-- Two providers in a chain of tools/providers/chain.py, of which the first is down.
use travel_plan_agent.Common.{
  ℕ, String, ◌≡◌, true, none, some, List, [], ◌∷◌, arith, map, str_eq, if◌then◌else◌,
}
use travel_plan_agent.Tools.Errors.{ToolProviderError, Answer, value, fault, connection}
use travel_plan_agent.Tools.Chain.{closed, Chain, is_open, note_failure, or_last, execute}
use travel_plan_agent.Tools.Chain.Circuits.{AreConsistent, is_open-note_failure}
use travel_plan_agent.Tools.Chain.Failover.{execute-AreConsistent}
use travel_plan_agent.Tools.Chain.Skips.{execute-outcome, asked, outcome}

abbrev down : ToolProviderError
down = record {
  category = connection;
  code = "connection_failed";
  operation = "weather";
  retryable = true;
  safe_message = "down";
  retry_after = none;
}

abbrev call : String → Answer ℕ
call n = if str_eq n "amap" then fault down else value 21

abbrev name : String → String
name n = n

abbrev chain : Chain
chain = record {
  failure_threshold = 1;
  recovery_seconds = 30;
  circuits = λ n. closed;
  clock = λ n. n;
  reads = 0;
  attempted = [];
}

closed_all : AreConsistent chain
closed_all = record {
  positive = omega arith;
  each = λ n. record { shut = λ e. omega arith; opened = λ t e. absurd (cc e) };
}

-- The first provider is known to be down.
abbrev tripped : Chain
tripped = record chain {
  circuits = λ n. if str_eq n "amap" then record { failures = 1; open_until = some 30 } else closed;
}

is_open-note_failure_example : (is_open "amap" 5 (note_failure "amap" chain)).0 ≡ true
is_open-note_failure_example = is_open-note_failure "amap" 5 chain

execute-AreConsistent_example : AreConsistent (execute name call "amap" ("open_meteo" ∷ []) chain).1
execute-AreConsistent_example =
    execute-AreConsistent name call "amap" ("open_meteo" ∷ []) chain closed_all

-- With the first circuit open, only the second provider is asked.
execute-outcome_example :
    (a : String) × (rest : List String) × (or_last name call "amap"
        ("open_meteo" ∷ [])
        ("open_meteo" ∷ [])
      ≡ a ∷ rest)
    × ((execute name call "amap" ("open_meteo" ∷ []) tripped).0 ≡ outcome name call a rest)
    × ((execute name call "amap" ("open_meteo" ∷ []) tripped).1.attempted
        ≡ map name (asked name call (a ∷ rest)))
execute-outcome_example = execute-outcome name call "amap" ("open_meteo" ∷ []) tripped
