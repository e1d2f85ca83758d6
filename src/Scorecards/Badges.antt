-- ===== src/Scorecards/Badges.antt =====
-- What decides the badge of a reliability scorecard (analystwatch/scorecards.py).
use analyst_watch.Prelude.{
  ◌≤◌, String, Bool, false, ◌≡◌, refl, some, List, [], ◌∷◌, In, In-select, select-In, In-sort_by,
  sort_by-In, All, select, sort_by, insert_by, All-map, leb→le, Bool-cases, last?, leb, arith, inl,
  inr,
}
use analyst_watch.Result.{ok}
use analyst_watch.Models.{Observation, DateTime, Instant}
use analyst_watch.Scorecards.{
  ReliabilityScorecard, not_monitored, badge_for_health, utc, observed_first, history_until,
  build_reliability_scorecard, scorecard_of,
}
use analyst_watch.Scorecards.Bounds.{build-scorecard_of}

-- Each observation is no newer than those after it.
abbrev IsTimed : List Observation → Type 0
IsTimed [] = Unit
IsTimed (o ∷ os) = All (λ (p : Observation). o.observed_at ≤ p.observed_at) os × IsTimed os

All-insert_by :
    (P : Observation → Type 0) (o : Observation) (os : List Observation)
    → P o
    → All P os
    → All P (insert_by observed_first o os)
All-insert_by P o [] h hs = (h, tt)
All-insert_by P o (p ∷ os) h hs = elim (Bool-cases (observed_first o p)) [
  | inl t ↦ rw t (h, hs)
  | inr f ↦ rw f (hs.0, All-insert_by P o os h hs.1)
]

-- The ids, which order observations of one time, do not matter here.
insert_by-IsTimed :
    (o : Observation) (os : List Observation) → IsTimed os → IsTimed (insert_by observed_first o os)
insert_by-IsTimed o [] s = (tt, tt)
insert_by-IsTimed o (p ∷ os) s = elim (Bool-cases (observed_first o p)) [
  | inl t ↦
      let le : o.observed_at ≤ p.observed_at = ground arith in
      rw t ((le, All-map _ _ os (λ (q : Observation) h. omega arith) s.0), s)
  | inr f ↦
      let le : p.observed_at ≤ o.observed_at = ground arith in
      rw f (
        All-insert_by (λ (q : Observation). p.observed_at ≤ q.observed_at) o os le s.0,
        insert_by-IsTimed o os s.1,
      )
]

sort_by-IsTimed : (os : List Observation) → IsTimed (sort_by observed_first os)
sort_by-IsTimed [] = tt
sort_by-IsTimed (o ∷ os) = insert_by-IsTimed o (sort_by observed_first os) (sort_by-IsTimed os)

last-newest :
    (o : Observation) (os : List Observation)
    → IsTimed (o ∷ os)
    → (p : Observation) × (last? (o ∷ os) ≡ some p)
      × In p (o ∷ os)
      × ((q : Observation) → In q (o ∷ os) → q.observed_at ≤ p.observed_at)
last-newest o [] s =
    (o, refl, inl refl, λ q m. elim m [ inl e ↦ rw e (omega arith) | inr n ↦ elim n [ ] ])
last-newest o (o' ∷ os) s =
    let (p, l, m, g) = last-newest o' os s.1 in
    let first : o.observed_at ≤ o'.observed_at = s.0.0 in
    let next = g o' (inl refl) in
    (p, l, inr m, λ q n. elim n [ inl e ↦ rw e (omega arith) | inr k ↦ g q k ])

-- The newest observation that is not after the given time, if there is one, decides the badge.
pub data DecidesBadge (os : List Observation) (t : Instant) (card : ReliabilityScorecard)
    : Type 0 where
  nothing_yet :
      ((o : Observation) → In o os → leb o.observed_at t ≡ false)
      → card.badge ≡ not_monitored
      → DecidesBadge os t card
  newest :
      (o : Observation)
      → In o os
      → o.observed_at ≤ t
      → ((p : Observation) → In p os → p.observed_at ≤ t → p.observed_at ≤ o.observed_at)
      → card.badge ≡ badge_for_health (some o.health)
      → card.latest_observation_at ≡ some o.observed_at
      → DecidesBadge os t card

decided :
    (source_id : String) (os : List Observation) (t : Instant) (complete : Bool)
    (normalized : List Observation)
    → history_until t os ≡ normalized
    → IsTimed normalized
    → DecidesBadge os t (scorecard_of source_id os t complete)
decided source_id os t complete [] e s =
    nothing_yet
      (λ o m. elim (Bool-cases (leb o.observed_at t)) [
        | inr f ↦ f
        | inl u ↦
            let k : In o (history_until t os) =
              sort_by-In observed_first o _
                (select-In (λ (x : Observation). leb x.observed_at t) os o m u) in
            elim (rw e at k) [ ]
      ])
      (rw e refl)
decided source_id os t complete (n ∷ ns) e s =
    let (p, l, m, g) = last-newest n ns s in
    let k : In p (history_until t os) = rw e m in
    let (own, early) =
      In-select (λ (x : Observation). leb x.observed_at t) os p (In-sort_by observed_first p _ k) in
    newest p own (leb→le _ _ early)
      (λ q n' le.
        let j : In q (history_until t os) =
          sort_by-In observed_first q _
            (select-In (λ (x : Observation). leb x.observed_at t) os q n' (ground arith)) in
        g q (rw e at j))
      (rw (e, l) refl) (rw (e, l) refl)

-- The badge of a scorecard that is built is that of the newest observation not after the given
-- time, whose time the scorecard shows, and it says Not monitored if there is no such observation.
pub badge-newest :
    (source_id : String) (os : List Observation) (as_of : DateTime) (complete : Bool)
    (card : ReliabilityScorecard)
    → build_reliability_scorecard source_id os as_of complete ≡ ok card
    → (t : Instant) × (utc as_of ≡ ok t) × DecidesBadge os t card
badge-newest source_id os as_of complete card h =
    let (t, e, same) = build-scorecard_of source_id os as_of complete card h in
    (
      t,
      e,
      rw (← same) (
          decided source_id os t complete (history_until t os) refl
            (sort_by-IsTimed (select (λ (x : Observation). leb x.observed_at t) os))),
    )
