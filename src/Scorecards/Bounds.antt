-- ===== src/Scorecards/Bounds.antt =====
-- The counts of a reliability scorecard (analystwatch/scorecards.py).
use analyst_watch.Prelude.{
  ℕ, suc, ◌+◌, ◌-◌, ◌≤◌, String, Bool, true, ◌≡◌, refl, some, List, [], ◌∷◌, length, select,
  count_if, all, if◌then◌else◌, arith, Bool-cases, inl, inr, ◌==◌,
}
use analyst_watch.Prelude.Rational.{Rational, of_ℕ, ◌≤ℚ◌, ◌/ℚ◌}
use analyst_watch.Result.{ok, bind-ok, same_ok, require-ok}
use analyst_watch.Models.{
  Observation, DateTime, Instant, is_healthy, health_eqb, healthy, warning, critical, opened,
  recovered, HealthStatus, days,
}
use analyst_watch.Memory.{is_successful}
use analyst_watch.Scorecards.{
  ReliabilityWindow, ReliabilityScorecard, IncidentEvent, window, rate, within, is_event, utc,
  scorecard_of, build_reliability_scorecard, is_stale_occurrence, is_data_rule_occurrence,
  history_until, incident_events,
}

-- Every check has one health, and no count is more than the checks; a rate is at most one.
pub record IsConsistent (w : ReliabilityWindow) : Type 0 where
  pub healths : w.healthy_count + w.warning_count + w.critical_count ≡ w.check_count
  pub successful : w.successful_check_count ≤ w.check_count
  pub stale : w.stale_occurrence_count ≤ w.check_count
  pub data_rules : w.data_rule_failure_occurrence_count ≤ w.check_count
  pub successful_rate : (q : Rational) → w.successful_check_pct ≡ some q → (q ≤ℚ of_ℕ 1) ≡ true
  pub healthy_rate : (q : Rational) → w.healthy_check_pct ≡ some q → (q ≤ℚ of_ℕ 1) ≡ true

-- No count of the shorter window is more than that of the longer one.
pub record FitsIn (short long : ReliabilityWindow) : Type 0 where
  pub checks : short.check_count ≤ long.check_count
  pub successful : short.successful_check_count ≤ long.successful_check_count
  pub healthy_checks : short.healthy_count ≤ long.healthy_count
  pub warnings : short.warning_count ≤ long.warning_count
  pub criticals : short.critical_count ≤ long.critical_count
  pub incidents : short.incident_count ≤ long.incident_count
  pub recoveries : short.recovered_incident_count ≤ long.recovered_incident_count
  pub stale : short.stale_occurrence_count ≤ long.stale_occurrence_count
  pub data_rules :
      short.data_rule_failure_occurrence_count ≤ long.data_rule_failure_occurrence_count

count_if-le {ℓ} : {A : Type ℓ} (p : A → Bool) (xs : List A) → count_if p xs ≤ length xs
count_if-le p [] = omega arith
count_if-le p (x ∷ xs) = ground (arith, count_if-le p xs)

one_health :
    (h : HealthStatus) (a b c n : ℕ)
    → a + b + c ≡ n
    → (if is_healthy h then suc a else a)
        + (if health_eqb h warning then suc b else b)
        + (if health_eqb h critical then suc c else c)
      ≡ suc n
one_health healthy a b c n e = omega arith
one_health warning a b c n e = omega arith
one_health critical a b c n e = omega arith

healths_total :
    (os : List Observation)
    → count_if (λ (o : Observation). is_healthy o.health) os
        + count_if (λ (o : Observation). health_eqb o.health warning) os
        + count_if (λ (o : Observation). health_eqb o.health critical) os
      ≡ length os
healths_total [] = omega arith
healths_total (o ∷ os) = one_health o.health _ _ _ _ (healths_total os)

rate_bound : (n c : ℕ) (q : Rational) → n ≤ c → rate n c ≡ some q → (q ≤ℚ of_ℕ 1) ≡ true
unfolding ◌/ℚ◌
rate_bound n c q le h = ground arith

-- What passes the narrower test passes the wider one.
count_select {ℓ} :
    {A : Type ℓ} (p q r : A → Bool) (xs : List A)
    → ((x : A) → p x ≡ true → q x ≡ true)
    → count_if r (select p xs) ≤ count_if r (select q xs)
count_select p q r [] h = omega arith
count_select p q r (x ∷ xs) h = elim (Bool-cases (p x)) [
  | inl t ↦ let u = h x t in ground (arith, count_select p q r xs h)
  | inr f ↦ ground (arith, count_select p q r xs h)
]

length-select {ℓ} :
    {A : Type ℓ} (p q : A → Bool) (xs : List A)
    → ((x : A) → p x ≡ true → q x ≡ true)
    → length (select p xs) ≤ length (select q xs)
length-select p q [] h = omega arith
length-select p q (x ∷ xs) h = elim (Bool-cases (p x)) [
  | inl t ↦ let u = h x t in ground (arith, length-select p q xs h)
  | inr f ↦ ground (arith, length-select p q xs h)
]

length-select_narrow {ℓ} :
    {A : Type ℓ} (p : A → Bool) (xs : List A) → length (select p xs) ≡ count_if p xs
length-select_narrow p [] = refl
length-select_narrow p (x ∷ xs) = ground (arith, length-select_narrow p xs)

earlier_within :
    (as_of n m t : ℕ)
    → n ≤ m
    → within (as_of - days n) as_of t ≡ true
    → within (as_of - days m) as_of t ≡ true
earlier_within as_of n m t le h = ground arith

module _ (os : List Observation) (es : List IncidentEvent) (as_of : Instant) where
  window-IsConsistent : (n : ℕ) → IsConsistent (window os es as_of n)
  unfolding window
  window-IsConsistent n =
      let current = select (λ (o : Observation). within (as_of - days n) as_of o.observed_at) os in
      record {
        healths = healths_total current;
        successful = count_if-le is_successful current;
        stale = count_if-le is_stale_occurrence current;
        data_rules = count_if-le is_data_rule_occurrence current;
        successful_rate = λ q h.
            rate_bound (count_if is_successful current) (length current) q
              (count_if-le is_successful current) h;
        healthy_rate = λ q h.
            rate_bound (count_if (λ (o : Observation). is_healthy o.health) current)
              (length current) q (count_if-le (λ (o : Observation). is_healthy o.health) current) h;
      }

  window-FitsIn : (n m : ℕ) → n ≤ m → FitsIn (window os es as_of n) (window os es as_of m)
  unfolding window
  window-FitsIn n m le =
      let narrow = λ (o : Observation). within (as_of - days n) as_of o.observed_at in
      let wide = λ (o : Observation). within (as_of - days m) as_of o.observed_at in
      let opens : (o : Observation) → narrow o ≡ true → wide o ≡ true =
        λ o h. earlier_within as_of n m o.observed_at le h in
      let narrow_event = λ (e : IncidentEvent). within (as_of - days n) as_of e.event_at in
      let wide_event = λ (e : IncidentEvent). within (as_of - days m) as_of e.event_at in
      let opens_event : (e : IncidentEvent) → narrow_event e ≡ true → wide_event e ≡ true =
        λ e h. earlier_within as_of n m e.event_at le h in
      record {
        checks = length-select narrow wide os opens;
        successful = count_select narrow wide is_successful os opens;
        healthy_checks =
            count_select narrow wide (λ (o : Observation). is_healthy o.health) os opens;
        warnings =
            count_select narrow wide (λ (o : Observation). health_eqb o.health warning) os opens;
        criticals =
            count_select narrow wide (λ (o : Observation). health_eqb o.health critical) os opens;
        incidents = count_select narrow_event wide_event (is_event opened) es opens_event;
        recoveries =
            rw
              (
                length-select_narrow (is_event recovered) (select narrow_event es),
                length-select_narrow (is_event recovered) (select wide_event es),
              )
              (count_select narrow_event wide_event (is_event recovered) es opens_event);
        stale = count_select narrow wide is_stale_occurrence os opens;
        data_rules = count_select narrow wide is_data_rule_occurrence os opens;
      }

-- A scorecard that is built carries the given observations and time.
pub build-scorecard_of :
    (source_id : String) (os : List Observation) (as_of : DateTime) (complete : Bool)
    (card : ReliabilityScorecard)
    → build_reliability_scorecard source_id os as_of complete ≡ ok card
    → (t : Instant) × (utc as_of ≡ ok t) × (scorecard_of source_id os t complete ≡ card)
unfolding build_reliability_scorecard
build-scorecard_of source_id os as_of complete card h =
    let own = all (λ (o : Observation). o.source_id == source_id) os in
    let (t, e, h1) = bind-ok (utc as_of) _ card h in
    let (u, h2) = require-ok own _ _ card h1 in
    (t, e, same_ok (scorecard_of source_id os t complete) card h2)

-- In a scorecard that is built, each window's healthy, warning and critical checks add up to its
-- checks, its successful, stale and data rule counts are at most its checks, its rates are at most
-- one, and no count of the window of 7 days is more than that of the window of 30 days.
pub scorecard_bounds :
    (source_id : String) (os : List Observation) (as_of : DateTime) (complete : Bool)
    (card : ReliabilityScorecard)
    → build_reliability_scorecard source_id os as_of complete ≡ ok card
    → IsConsistent card.window_7d
      × IsConsistent card.window_30d
      × FitsIn card.window_7d card.window_30d
scorecard_bounds source_id os as_of complete card h =
    let (t, e, same) = build-scorecard_of source_id os as_of complete card h in
    let normalized = history_until t os in
    let events = incident_events normalized complete in
    rw (← same) (
      window-IsConsistent normalized events t 7,
      window-IsConsistent normalized events t 30,
      window-FitsIn normalized events t 7 30 (omega arith),
    )
