-- ===== src/Detectors/Thresholds.antt =====
-- The row counts that the detector of analystwatch/detectors.py lets pass, warns of or calls critical.
use analyst_watch.Prelude.{
  ℕ, zero, suc, ◌+◌, ◌-◌, ◌*◌, ◌≤◌, ◌<◌, ◌≡◌, true, false, Bool-cases, inl, inr, List, subst, ap,
  Bool, length-map, [], ◌∷◌, length, eqb, arith, map, if◌then◌else◌,
}
use analyst_watch.Prelude.Rational.{Rational, den, of_ℕ, abs, ◌-ℚ◌, ◌/ℚ◌, ◌<ℚ◌, ◌≤ℚ◌, ◌==ℚ◌}
use analyst_watch.Models.{warning, critical, Finding, MonitoringConfig, DatasetProfile}
use analyst_watch.Detectors.Reference.{finding, historical_reference, critical_if}
use analyst_watch.Detectors.Columns.{detect_row_count}

-- The distance of two counts.
abbrev distance : ℕ → ℕ → ℕ
distance a b = (a - b) + (b - a)

-- A change from `before` to `after` rows is at least the fraction `t` of `before`.
abbrev pub Reaches : Rational → ℕ → ℕ → Type 0
Reaches t before after = t.up * before ≤ distance after before * den t + t.down * before

abbrev pub StaysBelow : Rational → ℕ → ℕ → Type 0
StaysBelow t before after = distance after before * den t + t.down * before < t.up * before

-- The findings for a number of rows beside that of the baseline.
pub data IsGraded (config : MonitoringConfig) : ℕ → ℕ → List Finding → Type 0 where
  still_empty : IsGraded config 0 0 []
  filled : (after : ℕ) → IsGraded config 0 (suc after) (finding warning "row_count" ∷ [])
  passed :
      (before after : ℕ)
      → StaysBelow config.warning_row_change_pct (suc before) after
      → IsGraded config (suc before) after []
  warned :
      (before after : ℕ)
      → Reaches config.warning_row_change_pct (suc before) after
      → StaysBelow config.critical_row_change_pct (suc before) after
      → IsGraded config (suc before) after (finding warning "row_count" ∷ [])
  called_critical :
      (before after : ℕ)
      → Reaches config.warning_row_change_pct (suc before) after
      → Reaches config.critical_row_change_pct (suc before) after
      → IsGraded config (suc before) after (finding critical "row_count" ∷ [])

abbrev change_of : ℕ → ℕ → Rational
change_of before after = abs (of_ℕ after -ℚ of_ℕ before) /ℚ of_ℕ before

up-change_of : (before after : ℕ) → (change_of (suc before) after).up ≡ distance after (suc before)
unfolding ◌-ℚ◌ ◌/ℚ◌ abs
up-change_of before after = ground arith

down-change_of : (before after : ℕ) → (change_of (suc before) after).down ≡ 0
unfolding ◌-ℚ◌ ◌/ℚ◌ abs
down-change_of before after = ground arith

den-change_of : (before after : ℕ) → den (change_of (suc before) after) ≡ suc before
unfolding ◌-ℚ◌ ◌/ℚ◌ abs
den-change_of before after = ground arith

lt-below :
    (c t : Rational) (m : ℕ)
    → den c ≡ m
    → c.down ≡ 0
    → (c <ℚ t) ≡ true
    → c.up * den t + t.down * m < t.up * m
lt-below c t m d z h = grind arith

not_lt-reaches :
    (c t : Rational) (m : ℕ)
    → den c ≡ m
    → c.down ≡ 0
    → (c <ℚ t) ≡ false
    → t.up * m ≤ c.up * den t + t.down * m
not_lt-reaches c t m d z h = grind arith

le-reaches :
    (c t : Rational) (m : ℕ)
    → den c ≡ m
    → c.down ≡ 0
    → (t ≤ℚ c) ≡ true
    → t.up * m ≤ c.up * den t + t.down * m
le-reaches c t m d z h = grind arith

not_le-below :
    (c t : Rational) (m : ℕ)
    → den c ≡ m
    → c.down ≡ 0
    → (t ≤ℚ c) ≡ false
    → c.up * den t + t.down * m < t.up * m
not_le-below c t m d z h = grind arith

-- What the reference, once found, makes of a number of rows.
abbrev row_findings : MonitoringConfig → Rational → ℕ → List Finding
row_findings config reference rows =
    if reference ==ℚ of_ℕ 0
    then (if eqb rows 0 then [] else finding warning "row_count" ∷ [])
    else let change = abs (of_ℕ rows -ℚ reference) /ℚ reference in
      if change <ℚ config.warning_row_change_pct
      then []
      else finding (critical_if (config.critical_row_change_pct ≤ℚ change)) "row_count" ∷ []

historical_reference-short :
    (values : List Rational) (baseline_value : Rational) (config : MonitoringConfig)
    → length values < config.min_history_observations
    → historical_reference values baseline_value config ≡ (baseline_value, false)
unfolding historical_reference
historical_reference-short values baseline_value config short = ground arith

detect_row_count-row_findings :
    (baseline current : DatasetProfile) (config : MonitoringConfig) (history : List DatasetProfile)
    → length history < config.min_history_observations
    → detect_row_count baseline current config history
      ≡ row_findings config (of_ℕ baseline.row_count) current.row_count
unfolding detect_row_count
detect_row_count-row_findings baseline current config history short =
    let counts = map (λ (p : DatasetProfile). of_ℕ p.row_count) history in
    ap (λ (r : Rational × Bool). row_findings config r.0 current.row_count)
      (historical_reference-short counts (of_ℕ baseline.row_count) config
        (rw (length-map (λ (p : DatasetProfile). of_ℕ p.row_count) history) short))

tested-IsGraded :
    (config : MonitoringConfig) (before after : ℕ)
    → IsGraded config (suc before) after (
        if change_of (suc before) after <ℚ config.warning_row_change_pct
        then []
        else finding
            (critical_if (config.critical_row_change_pct ≤ℚ change_of (suc before) after))
            "row_count"
          ∷ [])
tested-IsGraded config before after =
    let change = change_of (suc before) after in
    let w = config.warning_row_change_pct in
    let c = config.critical_row_change_pct in
    let d = den-change_of before after in
    let z = down-change_of before after in
    let u = up-change_of before after in
    elim (Bool-cases (change <ℚ w)) [
      | inl e ↦ rw e (
          passed before after (
            subst (λ n. n * den w + w.down * suc before < w.up * suc before) u
              (lt-below change w (suc before) d z e)))
      | inr e ↦
          let warns =
            subst (λ n. w.up * suc before ≤ n * den w + w.down * suc before) u
              (not_lt-reaches change w (suc before) d z e) in
          elim (Bool-cases (c ≤ℚ change)) [
            | inl f ↦
                rw (e, f)
                  (called_critical before after warns (
                    subst (λ n. c.up * suc before ≤ n * den c + c.down * suc before) u
                      (le-reaches change c (suc before) d z f)))
            | inr f ↦
                rw (e, f)
                  (warned before after warns (
                    subst (λ n. n * den c + c.down * suc before < c.up * suc before) u
                      (not_le-below change c (suc before) d z f)))
          ]
    ]

not_zero : (n : ℕ) → (of_ℕ (suc n) ==ℚ of_ℕ 0) ≡ false
not_zero n = ground arith

no_rows : (n : ℕ) → eqb (suc n) 0 ≡ false
no_rows n = ground arith

row_findings-IsGraded :
    (config : MonitoringConfig) (before after : ℕ)
    → IsGraded config before after (row_findings config (of_ℕ before) after)
row_findings-IsGraded config zero zero = still_empty
row_findings-IsGraded config zero (suc after) = rw (no_rows after) (filled after)
row_findings-IsGraded config (suc before) after =
    rw (not_zero before) (tested-IsGraded config before after)

-- With fewer earlier profiles than the configured minimum, the row counts alone decide: from an
-- empty baseline any rows are a warning; from a baseline with rows, the distance of the counts
-- passes below the warning threshold (as a fraction of the baseline's count), is a warning from
-- that threshold on, and is critical when it reaches the critical threshold too. There is at most
-- one finding, and its detector is row_count.
pub detect_row_count-IsGraded :
    (baseline current : DatasetProfile) (config : MonitoringConfig) (history : List DatasetProfile)
    → length history < config.min_history_observations
    → IsGraded config baseline.row_count current.row_count
        (detect_row_count baseline current config history)
detect_row_count-IsGraded baseline current config history short =
    rw (detect_row_count-row_findings baseline current config history short)
      (row_findings-IsGraded config baseline.row_count current.row_count)
