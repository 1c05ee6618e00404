-- ===== src/Lib.antt =====
-- A model of the travel planning agent's core, in src/travel_agent: the parts that decide what a run
-- may spend, how its calls of outside services end, what the agent remembers of its users, how a plan
-- is judged and repaired, how a session changes it, and what a change of the weather means for it.
--
-- Parts and files. `Common` has what the parts share: Boolean tests on the native numbers, lists,
-- dictionaries in insertion order (`Common.Dict`), methods that change a state and may raise
-- (`Common.Except`), texts (`Common.Text`) and stable sorting.
--   - Execution.Budget and Execution.Ledger model execution/budget.py, with the budget and the error of
--     execution/models.py and execution/errors.py: one action for each method of `ExecutionLedger`,
--     with the names of the methods. Execution.Ledger.Calls has the calls of a run as data.
--   - Tools.Retry models tools/retry.py, Tools.Chain the `_ProviderChain` of
--     tools/providers/chain.py, Tools.Cache tools/cache.py; Tools.Errors has their error type. A tool
--     call of a run is spent on the ledger, looked up in the cache, and then made through the chain,
--     whose providers retry.
--   - Memory.Models, Memory.Policy, Memory.Repository and Memory.Service model memory/models.py,
--     memory/policy.py, the in-memory class of memory/repository.py and the operations of
--     memory/service.py that change the state. The service calls the policy and the repository, and
--     has the table of decisions; Memory.Service.Proposals has the decisions on proposals and
--     Memory.Service.Requests a sequence of requests as data.
--   - Planning.Models has the parts of domain/models.py, domain/repair_models.py and planning/drafts.py
--     that planning/repair.py reads. Planning.Repair models that file: Removals and Targets have its
--     generators, Build `build_repair_plan`, and Apply `apply_repair_plan`, which takes the places of a
--     draft from day to day. Planning.Validator models planning/validator.py, whose errors the repair
--     works on, and Planning.Critic the verdict of planning/critic.py on these errors.
--   - Lifecycle.Models, Lifecycle.Repository, Lifecycle.Impact, Lifecycle.Fingerprints and
--     Lifecycle.Workflow model the files of lifecycle/ with these names, on the records of
--     domain/lifecycle_models.py; Lifecycle.Grounding and Lifecycle.Actions model lifecycle/actions.py.
--     A node of the graph is a function from the session that it reads to the one that it saves, or to
--     the error that it raises: Selection has `select_candidate` and `change_lock`, Editing the nodes
--     from `parse_edit` to `analyze_impact`, Preview `build_preview`, Approval `resolve_approval`, and
--     Weather the nodes from `resolve_weather_location` to `build_weather_repair` and the dismissal.
--     World has what a request reads and `_resume_requirement`; Session is `resume` of
--     lifecycle/service.py, which takes the clarification of requirements, or runs
--     the nodes for the action of a request, and saves the session with the revision that was read; a
--     refresh of the weather that fails saves it and raises. A preview is built on an edit that
--     Lifecycle.Actions applies, and is judged by Planning.Validator.
--   - Weather.Models has the records of domain/weather_models.py. Weather.Policy, Weather.Events and
--     Weather.Persistence model the files of weather/ with these names: a forecast becomes a snapshot and
--     the risk of each day, two of these make an event, and the session keeps them in the fields that
--     `WeatherRecords` has. Weather.Repair models weather/repair.py, whose edit goes the way of the edits
--     of a user.
--
-- Readings of a clock are arguments or a function of the number of the reading; times are natural
-- numbers, in microseconds for the ledger and the retry policy. Methods under a lock are one step; a
-- coroutine of the cache is cut where it waits. The loop of the eviction has the number of entries as
-- its fuel, since each round takes one away; the retry loop has the number of attempts. Python's
-- Unicode tables, the JSON text of a value, its digest and the search for a long number are
-- parameters, as are the providers, the loaders and the clocks.
--
-- Not modelled: traces and logs; the SQLite and PostgreSQL repositories; the limits of field lengths;
-- the graph workflow that LangGraph runs, the HTTP interface, the gateways to language models and
-- maps; the planner and the optimiser, whose plan for a draft is an argument; the requirements, whose
-- answer to a clarification is an argument, as are what the weather's gateway answers, the impact of
-- the weather on a plan and the alternatives that are found; the soft critic; and the diff of
-- two plans.
pub mod Common
pub mod Execution
pub mod Tools
pub mod Memory
pub mod Planning
pub mod Lifecycle
pub mod Weather
