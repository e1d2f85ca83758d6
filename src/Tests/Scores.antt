-- ===== src/Tests/Scores.antt =====
-- Scorecards of a source with four observations, in memory and with a bounded history.
use analyst_watch.Prelude.{Bool, true, false, some, ◌≡◌, refl, List, [], ◌∷◌, get}
use analyst_watch.Result.{Result, ok}
use analyst_watch.Models.{Observation, Instant, aware}
use analyst_watch.Scorecards.{
  ReliabilityScorecard, utc, scorecard_of, build_reliability_scorecard, window, incident_events,
  events_from, trusted,
}
use analyst_watch.Scorecards.History.{ScorecardService, new_service, read_history, history}
use analyst_watch.Scorecards.Reading.{IsHistory, history-IsHistory}
use analyst_watch.Scorecards.Bounds.{IsConsistent, FitsIn, scorecard_bounds}
use analyst_watch.Scorecards.Badges.{DecidesBadge, badge-newest}
use analyst_watch.Memory.{list_observations}
use analyst_watch.Incidents.{incident_transition}
use analyst_watch.Samples.{store, source, o1, o2, o3, o4}

abbrev observations : List Observation
observations = o4 ∷ o2 ∷ o3 ∷ o1 ∷ []

abbrev card : ReliabilityScorecard
card = scorecard_of "s" observations 10 true

card_built : build_reliability_scorecard "s" observations (aware 10) true ≡ ok card
unfolding build_reliability_scorecard
card_built = refl

card_counts :
    (card.badge ≡ trusted)
    × (card.window_7d.check_count ≡ 4)
    × (card.window_7d.incident_count ≡ 1)
    × (card.window_7d.recovered_incident_count ≡ 1)
unfolding window incident_events events_from incident_transition
card_counts = (refl, refl, refl, refl)

scorecard_bounds_example :
    IsConsistent card.window_7d
    × IsConsistent card.window_30d
    × FitsIn card.window_7d card.window_30d
scorecard_bounds_example = scorecard_bounds "s" observations (aware 10) true card card_built

badge-newest_example : (t : Instant) × (utc (aware 10) ≡ ok t) × DecidesBadge observations t card
badge-newest_example = badge-newest "s" observations (aware 10) true card card_built

abbrev service : ScorecardService
service = record { minimum_history_observations = 2; max_history_observations = 3 }

service_made : new_service 2 3 ≡ ok service
unfolding new_service
service_made = refl

-- Three of the four observations are read, so the history is cut.
history_cut : history service store source 10 ≡ some (ok (o4 ∷ o3 ∷ o2 ∷ [], false))
unfolding history read_history list_observations get
history_cut = refl

history-IsHistory_example :
    (r : Result (List Observation × Bool)) × (history service store source 10 ≡ some r)
    × ((os : List Observation) (complete : Bool)
        → r ≡ ok (os, complete)
        → IsHistory store "s" 10 3 os complete)
history-IsHistory_example = history-IsHistory 2 3 service store source 10 service_made
