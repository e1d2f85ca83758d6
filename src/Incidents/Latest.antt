-- ===== src/Incidents/Latest.antt =====
-- The latest incident of a history, against an independent description.
use analyst_watch.Prelude.{
  ◌||◌, any, ◌↔◌, ◌∙◌, ap, subst, ℕ, ◌≤◌, ◌≡◌, refl, true, false, Option, none, some, List, [], ◌∷◌,
  ◌++◌, arith, length, All, last?,
}
use analyst_watch.Models.{
  HealthStatus, healthy, warning, critical, health_eqb, open_incident, recovered_incident,
  Observation, IncidentSnapshot,
}
use analyst_watch.Incidents.{
  incident_of, severity_rank, is_unhealthy, healthy_prefix, from_unhealthy, unhealthy_block,
  peak_health, worse, last_of, latest_incident,
}

abbrev pub IsUnhealthy : Observation → Type 0
IsUnhealthy o = is_unhealthy o ≡ true

abbrev pub IsHealthy : Observation → Type 0
IsHealthy o = o.health ≡ healthy

abbrev pub StartsHealthy : List Observation → Type 0
StartsHealthy [] = Unit
StartsHealthy (o ∷ os) = IsHealthy o

-- The status and the recovery that a snapshot shows, by the healthy observation that ended the
-- incident, if one did.
abbrev pub Shows : IncidentSnapshot → Option Observation → Type 0
Shows s none = (s.status ≡ open_incident) × (s.recovered_observation_id ≡ none)
Shows s (some r) =
    (s.status ≡ recovered_incident)
    × (s.recovered_observation_id ≡ some r.id)
    × (s.recovered_at ≡ some r.observed_at)
    × (s.updated_at ≡ r.observed_at)

-- `s` describes the newest maximal run of unhealthy observations of `os`, which come newest first.
pub record Describes (os : List Observation) (s : IncidentSnapshot) : Type 0 where
  pub newer : List Observation
  pub first : Observation
  pub others : List Observation
  pub older : List Observation
  pub split : os ≡ newer ++ ((first ∷ others) ++ older)
  pub newer_healthy : All IsHealthy newer
  pub block_unhealthy : All IsUnhealthy (first ∷ others)
  pub older_healthy : StartsHealthy older
  pub counted : s.observation_count ≡ length (first ∷ others)
  pub opener : Observation
  pub opens : last? (first ∷ others) ≡ some opener
  pub opened_id : s.opened_observation_id ≡ opener.id
  pub opened_time : s.opened_at ≡ opener.observed_at
  pub latest_id : s.latest_incident_observation_id ≡ first.id
  pub peak : All (λ o. severity_rank o.health ≤ severity_rank s.peak_health) (first ∷ others)
  pub attained :
      any (λ (o : Observation). health_eqb o.health s.peak_health) (first ∷ others) ≡ true
  pub shown : Shows s (last? newer)

-- The rest after the block.
abbrev after_block : List Observation → List Observation
after_block [] = []
after_block (o ∷ os) = elim (is_unhealthy o) [ true ↦ after_block os | false ↦ o ∷ os ]

healthy_prefix-append : (os : List Observation) → os ≡ healthy_prefix os ++ from_unhealthy os
healthy_prefix-append [] = refl
healthy_prefix-append (o ∷ os) = ground (arith, healthy_prefix-append os)

block-append : (os : List Observation) → os ≡ unhealthy_block os ++ after_block os
block-append [] = refl
block-append (o ∷ os) = ground (arith, block-append os)

All-healthy_prefix : (os : List Observation) → All IsHealthy (healthy_prefix os)
All-healthy_prefix [] = tt
All-healthy_prefix (o ∷ os) = ground (arith, All-healthy_prefix os)

All-unhealthy_block : (os : List Observation) → All IsUnhealthy (unhealthy_block os)
All-unhealthy_block [] = tt
All-unhealthy_block (o ∷ os) = ground (arith, All-unhealthy_block os)

after_block-healthy : (os : List Observation) → StartsHealthy (after_block os)
after_block-healthy [] = tt
after_block-healthy (o ∷ os) = ground (arith, after_block-healthy os)

worse_le :
    (a b : HealthStatus)
    → (severity_rank a ≤ severity_rank (worse a b)) × (severity_rank b ≤ severity_rank (worse a b))
worse_le a b = ground arith

All-peak_below :
    (m : ℕ) (os : List Observation)
    → severity_rank (peak_health os) ≤ m
    → All (λ o. severity_rank o.health ≤ m) os
All-peak_below m [] h = tt
All-peak_below m (o ∷ os) h =
    let (a, b) = worse_le o.health (peak_health os) in
    (omega arith, All-peak_below m os (omega arith))

last?-last_of : (o : Observation) (os : List Observation) → last? (o ∷ os) ≡ some (last_of o os)
last?-last_of o [] = refl
last?-last_of o (p ∷ ps) = last?-last_of p ps

worse-attained :
    (h p : HealthStatus) (os : List Observation)
    → any (λ (o : Observation). health_eqb o.health p) os ≡ true
    → (health_eqb h (worse h p) || any (λ (o : Observation). health_eqb o.health (worse h p)) os)
      ≡ true
worse-attained critical p os e = refl
worse-attained warning critical os e = e
worse-attained warning warning os e = refl
worse-attained warning healthy os e = refl
worse-attained healthy critical os e = e
worse-attained healthy warning os e = e
worse-attained healthy healthy os e = refl

-- Some observation has the peak health.
peak-attained :
    (o : Observation) (os : List Observation)
    → any (λ (x : Observation). health_eqb x.health (peak_health (o ∷ os))) (o ∷ os) ≡ true
peak-attained o [] = ground arith
peak-attained o (p ∷ ps) =
    worse-attained o.health (peak_health (p ∷ ps)) (p ∷ ps) (peak-attained p ps)

nonempty_start :
    (os : List Observation) → unhealthy_block (from_unhealthy os) ≡ [] → from_unhealthy os ≡ []
nonempty_start [] h = refl
nonempty_start (o ∷ os) h = ground (arith, nonempty_start os)

All-IsHealthy_of_none : (os : List Observation) → from_unhealthy os ≡ [] → All IsHealthy os
All-IsHealthy_of_none [] h = tt
All-IsHealthy_of_none (o ∷ os) h = ground (arith, All-IsHealthy_of_none os)

from_unhealthy_of_All :
    (os : List Observation) → All IsHealthy os → unhealthy_block (from_unhealthy os) ≡ []
from_unhealthy_of_All [] h = refl
from_unhealthy_of_All (o ∷ os) h = ground (arith, from_unhealthy_of_All os)

module _ (os : List Observation) (first : Observation) (others : List Observation)
    (e : unhealthy_block (from_unhealthy os) ≡ first ∷ others) where
  split_at : os ≡ healthy_prefix os ++ ((first ∷ others) ++ after_block (from_unhealthy os))
  split_at =
      healthy_prefix-append os
      ∙ ap (◌++◌ (healthy_prefix os))
          (block-append (from_unhealthy os) ∙ ap (λ b. b ++ after_block (from_unhealthy os)) e)

  describe :
      (back : Option Observation)
      → last? (healthy_prefix os) ≡ back
      → Describes os (incident_of back first others)
  describe none b = record {
    newer = healthy_prefix os;
    first = first;
    others = others;
    older = after_block (from_unhealthy os);
    split = split_at;
    newer_healthy = All-healthy_prefix os;
    block_unhealthy = rw e at (All-unhealthy_block (from_unhealthy os));
    older_healthy = after_block-healthy (from_unhealthy os);
    counted = refl;
    opener = last_of first others;
    opens = last?-last_of first others;
    opened_id = refl;
    opened_time = refl;
    latest_id = refl;
    peak = All-peak_below _ (first ∷ others) (omega arith);
    attained = peak-attained first others;
    shown = rw b (refl, refl);
  }
  describe (some back) b = record {
    newer = healthy_prefix os;
    first = first;
    others = others;
    older = after_block (from_unhealthy os);
    split = split_at;
    newer_healthy = All-healthy_prefix os;
    block_unhealthy = rw e at (All-unhealthy_block (from_unhealthy os));
    older_healthy = after_block-healthy (from_unhealthy os);
    counted = refl;
    opener = last_of first others;
    opens = last?-last_of first others;
    opened_id = refl;
    opened_time = refl;
    latest_id = refl;
    peak = All-peak_below _ (first ∷ others) (omega arith);
    attained = peak-attained first others;
    shown = rw b (refl, refl, refl, refl);
  }

Describes-of_block :
    (os b : List Observation) (s : IncidentSnapshot)
    → unhealthy_block (from_unhealthy os) ≡ b
    → latest_incident os ≡ some s
    → Describes os s
unfolding latest_incident
Describes-of_block os [] s e h = ground arith
Describes-of_block os (first ∷ others) s e h =
    let built : incident_of (last? (healthy_prefix os)) first others ≡ s = ground arith in
    subst (Describes os) built (describe os first others e (last? (healthy_prefix os)) refl)

-- The snapshot describes the newest maximal run of unhealthy observations of a history that comes
-- newest first: the ids of its first and last member, when it opened, its length, the greatest
-- severity in it, and, if a healthy observation came after it, that the incident is recovered and
-- the observation that ended it, else that it is open.
pub latest_incident-Describes :
    (os : List Observation) (s : IncidentSnapshot) → latest_incident os ≡ some s → Describes os s
latest_incident-Describes os s h = Describes-of_block os _ s refl h

none_iff_on :
    (os b : List Observation)
    → unhealthy_block (from_unhealthy os) ≡ b
    → (latest_incident os ≡ none) ↔ All IsHealthy os
unfolding latest_incident
none_iff_on os [] e = ((λ _. All-IsHealthy_of_none os (nonempty_start os e)), λ _. ground arith)
none_iff_on os (first ∷ others) e =
    ((λ h. absurd (ground arith)), λ h. let f = from_unhealthy_of_All os h in cc)

-- There is no incident exactly if every observation is healthy.
pub latest_incident-eq-none :
    (os : List Observation) → (latest_incident os ≡ none) ↔ All IsHealthy os
latest_incident-eq-none os = none_iff_on os _ refl
