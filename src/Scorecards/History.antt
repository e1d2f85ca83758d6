-- ===== src/Scorecards/History.antt =====
-- `ScorecardService` of analystwatch/scorecard_service.py over the store in memory. The loop that
-- reads more and more of the history runs on fuel.
use analyst_watch.Prelude.{
  ℕ, zero, suc, ◌+◌, ◌-◌, ◌*◌, ◌/◌, String, Bool, true, false, ◌&&◌, Option, none, some, List, [],
  ◌∷◌, concat, length, select, last?, leb, ltb, if◌then◌else◌,
}
use analyst_watch.Result.{Result, ok, err, value_error, key_error, require, ◌>>◌}
use analyst_watch.Models.{
  Observation, SourceDefinition, Instant, DateTime, aware, days, is_healthy, now_or_clock,
}
use analyst_watch.Memory.{MemoryStore, get_source, list_observations}
use analyst_watch.Scorecards.{ReliabilityScorecard, build_reliability_scorecard}

pub record ScorecardService : Type 0 where
  pub minimum_history_observations : ℕ
  pub max_history_observations : ℕ

-- `ScorecardService(storage, ...)`
unfoldable pub new_service : ℕ → ℕ → Result ScorecardService
new_service minimum maximum = do
  require (leb 1 minimum) (value_error "minimum_history_observations must be positive")
  require (leb minimum maximum)
      (value_error "max_history_observations must be at least minimum_history_observations")
  ok (record { minimum_history_observations = minimum; max_history_observations = maximum })

-- `min` and `max`
abbrev pub lesser : ℕ → ℕ → ℕ
lesser a b = if ltb b a then b else a

abbrev pub greater : ℕ → ℕ → ℕ
greater a b = if ltb a b then b else a

-- `ceil((31 * 24 * 60) / interval)`
abbrev pub expected_checks : ℕ → ℕ
expected_checks interval = (44640 + interval - 1) / interval

abbrev pub first_limit : ScorecardService → SourceDefinition → ℕ
first_limit service source =
    lesser
      (greater (expected_checks source.config.monitor_interval_minutes + 2)
        service.minimum_history_observations)
      service.max_history_observations

-- The oldest observation that counts is older than 30 days and healthy.
abbrev pub reaches_back : Instant → Instant → List Observation → Bool
reaches_back as_of cutoff observations =
    elim (last? (select (λ (o : Observation). leb o.observed_at as_of) observations)) [
      | none ↦ false
      | some oldest ↦ ltb oldest.observed_at cutoff && is_healthy oldest.health
    ]

-- `while True`; `none` when the fuel is used up first.
unfoldable pub read_history :
    ℕ → MemoryStore → String → Instant → ℕ → ℕ → Option (Result (List Observation × Bool))
read_history zero st source_id as_of maximum limit = none
read_history (suc fuel) st source_id as_of maximum limit =
    let more = read_history fuel st source_id as_of maximum (lesser (limit * 2) maximum) in
    elim (list_observations st source_id limit) [
      | err e ↦ some (err e)
      | ok observations ↦
          if ltb (length observations) limit
          then some (ok (observations, true))
          else if reaches_back as_of (as_of - days 30) observations
          then some (ok (observations, true))
          else if leb maximum limit
          then some (ok (observations, false))
          else more
    ]

-- `_history`
unfoldable pub history :
    ScorecardService
    → MemoryStore
    → SourceDefinition
    → Instant
    → Option (Result (List Observation × Bool))
history service st source as_of =
    read_history (suc service.max_history_observations) st source.id as_of
      service.max_history_observations (first_limit service source)

abbrev pub scorecard_from :
    SourceDefinition
    → Instant
    → Option (Result (List Observation × Bool))
    → Option (Result ReliabilityScorecard)
scorecard_from source as_of none = none
scorecard_from source as_of (some (err e)) = some (err e)
scorecard_from source as_of (some (ok (observations, complete))) =
    some (build_reliability_scorecard source.id observations (aware as_of) complete)

abbrev pub scorecard_found :
    ScorecardService
    → MemoryStore
    → String
    → Instant
    → Option SourceDefinition
    → Option (Result ReliabilityScorecard)
scorecard_found service st source_id as_of none =
    some (err (key_error (concat ("Unknown source: " ∷ source_id ∷ []))))
scorecard_found service st source_id as_of (some source) =
    scorecard_from source as_of (history service st source as_of)

-- `scorecard`; the clock's reading is an argument.
unfoldable pub scorecard :
    ScorecardService
    → MemoryStore
    → String
    → Option DateTime
    → Instant
    → Option (Result ReliabilityScorecard)
scorecard service st source_id as_of clock =
    scorecard_found service st source_id (now_or_clock as_of clock) (get_source st source_id)
