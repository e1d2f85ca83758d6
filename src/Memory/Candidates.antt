-- ===== src/Memory/Candidates.antt =====
-- The notification candidates of `MemoryStore`.
use analyst_watch.Prelude.{
  ℕ, String, Bool, ◌&&◌, ◌||◌, not, Option, none, some, List, ◌==◌, concat, map, get, put, contains,
  sort_by, select, ltb, eqb, take, if◌then◌else◌, [], ◌∷◌,
}
use analyst_watch.Result.{Result, ok, err, Exec, value_error, ◌>>=◌}
use analyst_watch.Models.{NotificationCandidate}
use analyst_watch.Memory.State.{MemoryStore, index_all, number_from}

unfoldable pub get_notification_candidate : MemoryStore → String → Option NotificationCandidate
get_notification_candidate st candidate_id = get candidate_id st.candidates

-- `source_id is None or item.source_id == source_id`
abbrev pub matches : Option String → String → Bool
matches none s = Bool.true
matches (some t) s = s == t

abbrev created_later : ℕ × NotificationCandidate → ℕ × NotificationCandidate → Bool
created_later a b =
    ltb b.1.created_at a.1.created_at || (eqb a.1.created_at b.1.created_at && ltb b.0 a.0)

abbrev newest_candidate_first : ℕ × NotificationCandidate → ℕ × NotificationCandidate → Bool
newest_candidate_first a b = not (created_later b a)

unfoldable pub list_notification_candidates :
    MemoryStore → Option String → ℕ → Result (List NotificationCandidate)
list_notification_candidates st source_id limit = do
  items ← index_all st.candidates st.candidate_ids
  let indexed =
      select (λ (p : ℕ × NotificationCandidate). matches source_id p.1.source_id)
        (number_from 0 items)
  ok (
      map (λ (p : ℕ × NotificationCandidate). p.1)
        (take limit (sort_by newest_candidate_first indexed)))

unfoldable pub update_notification_candidate :
    NotificationCandidate → Exec MemoryStore NotificationCandidate
update_notification_candidate candidate st =
    if contains candidate.id st.candidates
    then (ok candidate, record st { candidates = put candidate.id candidate st.candidates })
    else (err (value_error (concat ("Unknown notification candidate: " ∷ candidate.id ∷ []))), st)
