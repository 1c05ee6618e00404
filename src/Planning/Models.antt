-- ===== src/Planning/Models.antt =====
-- domain/models.py, domain/repair_models.py and planning/drafts.py, as far as the planner and the lifecycle read them.
-- A date is its ordinal. An instant is in seconds on the clock of the trip's time zone, which is that
-- of the arrival; a time of day is in seconds after midnight. Amounts of money are in the smallest
-- unit, a confidence in millionths.
use travel_plan_agent.Common.{ℕ, String, Bool, Option, List}

pub data ItemType : Type 0 where
  activity meal rest transport : ItemType

pub record TimeWindow : Type 0 where
  pub start : ℕ
  pub end : ℕ

pub record PlanItem : Type 0 where
  pub item_id : Option String
  pub type : ItemType
  pub name : String
  pub start_at : ℕ
  pub end_at : ℕ
  pub poi_id : Option String
  pub travel_from_previous_minutes : ℕ
  pub distance_from_previous_meters : ℕ
  pub estimated_cost : Option ℕ

pub record DayPlan : Type 0 where
  pub date : ℕ
  pub items : List PlanItem
  pub walking_distance_meters : ℕ
  pub total_travel_minutes : ℕ
  pub known_estimated_cost : ℕ

pub data ValueSource : Type 0 where
  provider derived default user_confirmed : ValueSource

-- A planning assumption: its field and its source.
pub record PlanningAssumption : Type 0 where
  pub field : String
  pub source : ValueSource

-- `facts.id`, `facts.name` and `facts.categories` stand beside the other fields.
pub record PlanningPoi : Type 0 where
  pub id : String
  pub name : String
  pub categories : List String
  pub opening_windows : List (ℕ × TimeWindow)
  pub opening_window_sources : List (ℕ × ValueSource)
  pub duration_minutes : ℕ
  pub data_confidence : ℕ

-- A datetime of an anchor: the date that its own zone shows, and the instant.
pub record Moment : Type 0 where
  pub local_date : ℕ
  pub at : ℕ

pub record MobilityConstraints : Type 0 where
  pub max_daily_walking_meters : ℕ
  pub max_daily_activity_minutes : ℕ

pub record TripSpec : Type 0 where
  pub arrival : Moment
  pub departure : Moment
  pub total_budget : Option ℕ
  pub interests : List String
  pub avoid : List String
  pub must_visit : List String
  pub mobility : MobilityConstraints
  pub daily_start : ℕ
  pub daily_end : ℕ

pub record Violation : Type 0 where
  pub type : String
  pub is_error : Bool
  pub day : Option ℕ
  pub entity_ids : List String

pub record PlanCandidate : Type 0 where
  pub id : String
  pub days : List DayPlan
  pub known_estimated_cost : ℕ
  pub violations : List Violation
  pub assumptions : List PlanningAssumption

pub record DraftDay : Type 0 where
  pub date : ℕ
  pub poi_ids : List String

pub record CandidateDraft : Type 0 where
  pub id : String
  pub days : List DraftDay

pub data RepairActionKind : Type 0 where
  remove_optional_poi move_poi reorder_optional_poi insert_must_visit : RepairActionKind
  add_available_poi : RepairActionKind

-- The two texts for the reader of an action are left out.
pub record RepairAction : Type 0 where
  pub kind : RepairActionKind
  pub source_violation_type : String
  pub poi_id : String
  pub from_day : Option ℕ
  pub to_day : Option ℕ

pub record CriticReport : Type 0 where
  pub repairable : Bool
  pub terminal_reason : Option String

pub record RepairPlan : Type 0 where
  pub round : ℕ
  pub target_candidate_id : String
  pub source_violation_types : List String
  pub actions : List RepairAction
  pub affected_days : List ℕ
  pub preserved_days : List ℕ
