-- ===== src/DataRules/Outcomes.antt =====
-- What a dataset must be for a list of data rules to give no finding.
use analyst_watch.Prelude.{
  ◌||◌, ◌∷◌, String, Bool, true, false, ◌≡◌, ◌↔◌, refl, ◌≢◌, Bool-cases, Option, none, some, List,
  [], ◌==◌, eq_iff, arith, get, any, not, eqb, All, In, inl, inr,
}
use analyst_watch.Prelude.Rational.{Rational, of_ℕ}
use analyst_watch.Result.{ok}
use analyst_watch.Models.{
  healthy, DataRule, DataRuleKind, not_null, allowed_values, numeric_range, row_count_range,
  validate_contract,
}
use analyst_watch.DataRules.{
  CellReading, Frame, below_minimum, above_maximum, accepts, violations, rule_fails,
  evaluate_data_rules,
}
use analyst_watch.Detectors.Severity.{AreAlarms}

-- What one cell must be: not null, a text of the list, a number within the bounds.
abbrev pub Accepts : DataRule → DataRuleKind → CellReading → Type 0
Accepts rule not_null c = c.is_null ≡ false
Accepts rule allowed_values c = (t : String) × (c.text ≡ some t) × In t rule.allowed
Accepts rule numeric_range c =
    (q : Rational) × (c.number ≡ some q)
    × (below_minimum rule.minimum q ≡ false)
    × (above_maximum rule.maximum q ≡ false)
Accepts rule row_count_range c = Unit

-- The rule's field, if it has one, is a column whose cells all are accepted.
abbrev pub FieldSatisfies : DataRule → Frame → Type 0
FieldSatisfies rule frame =
    (field : String)
    → rule.field ≡ some field
    → (cells : List CellReading) × (get field frame.columns ≡ some cells)
      × All (Accepts rule rule.kind) cells

abbrev pub KindSatisfies : DataRuleKind → DataRule → Frame → Type 0
KindSatisfies row_count_range rule frame =
    (below_minimum rule.minimum (of_ℕ frame.row_count) ≡ false)
    × (above_maximum rule.maximum (of_ℕ frame.row_count) ≡ false)
KindSatisfies not_null rule frame = FieldSatisfies rule frame
KindSatisfies allowed_values rule frame = FieldSatisfies rule frame
KindSatisfies numeric_range rule frame = FieldSatisfies rule frame

any-In : (t : String) (xs : List String) → (any (λ a. t == a) xs ≡ true) ↔ In t xs
any-In t [] = (λ h. absurd (ground arith), λ m. elim m [ ])
any-In t (x ∷ xs) = ground (arith, eq_iff t x, any-In t xs)

allowed_iff :
    (allowed : List String) (text : Option String)
    → (elim text [ none ↦ false | some t ↦ any (λ a. t == a) allowed ] ≡ true)
      ↔ ((t : String) × (text ≡ some t) × In t allowed)
allowed_iff allowed none = (λ h. absurd (ground arith), λ (t, e, m). absurd (ground arith))
allowed_iff allowed (some t) = (
  (λ h. (t, refl, (any-In t allowed).0 h)),
  λ (u, e, m). (any-In t allowed).1 (let same : t ≡ u = ground arith in rw same m),
)

accepts_iff :
    (rule : DataRule) (kind : DataRuleKind) (c : CellReading)
    → (accepts rule kind c ≡ true) ↔ Accepts rule kind c
accepts_iff rule not_null c = ground arith
accepts_iff rule allowed_values c = ground (arith, allowed_iff rule.allowed c.text)
accepts_iff rule numeric_range c = ground arith
accepts_iff rule row_count_range c = ground arith

violations_zero :
    (rule : DataRule) (cells : List CellReading)
    → (eqb (violations rule cells) 0 ≡ true) ↔ All (Accepts rule rule.kind) cells
violations_zero rule [] = ground arith
violations_zero rule (c ∷ cs) =
    let (f, g) = accepts_iff rule rule.kind c in
    let (p, q) = violations_zero rule cs in
    elim (Bool-cases (accepts rule rule.kind c)) [
      | inl t ↦ rw t ((λ h. (f t, p h)), λ (a, r). q r)
      | inr n ↦ rw n ((λ h. absurd (ground arith)), λ (a, r). absurd (ground (arith, g a)))
    ]

negation_iff : (b : Bool) → (not b ≡ false) ↔ (b ≡ true)
negation_iff true = ground arith
negation_iff false = ground arith

column_iff :
    (rule : DataRule) (found : Option (List CellReading))
    → (elim found [ none ↦ true | some cells ↦ not (eqb (violations rule cells) 0) ] ≡ false)
      ↔ ((cells : List CellReading) × (found ≡ some cells) × All (Accepts rule rule.kind) cells)
column_iff rule none = (λ h. absurd (ground arith), λ (c, e, m). absurd (ground arith))
column_iff rule (some cells) =
    let (f, g) = violations_zero rule cells in
    let (p, q) = negation_iff (eqb (violations rule cells) 0) in
    (
      (λ h. (cells, refl, f (p h))),
      λ (c, e, m). q (g (let same : cells ≡ c = ground arith in rw same m)),
    )

some_string : (x y : String) → some x ≡ some y → x ≡ y
some_string x y h = ground arith

field_iff :
    (rule : DataRule) (frame : Frame) (field : Option String)
    → (elim field [
      | none ↦ false
      | some name ↦ elim (get name frame.columns) [
        | none ↦ true
        | some cells ↦ not (eqb (violations rule cells) 0)
      ]
    ]
        ≡ false)
      ↔ ((name : String)
          → field ≡ some name
          → (cells : List CellReading) × (get name frame.columns ≡ some cells)
            × All (Accepts rule rule.kind) cells)
field_iff rule frame none = (λ h name e. absurd (ground arith), λ h. refl)
field_iff rule frame (some field) =
    let (f, g) = column_iff rule (get field frame.columns) in
    ((λ h name e. rw (← some_string field name e) (f h)), λ h. g (h field refl))

or_false : (a b : Bool) → (a || b ≡ false) ↔ ((a ≡ false) × (b ≡ false))
or_false true b = ground arith
or_false false b = ground arith

fails_iff :
    (rule : DataRule) (frame : Frame) (kind : DataRuleKind)
    → (rule_fails rule kind frame ≡ false) ↔ KindSatisfies kind rule frame
fails_iff rule frame row_count_range = or_false _ _
fails_iff rule frame not_null = field_iff rule frame rule.field
fails_iff rule frame allowed_values = field_iff rule frame rule.field
fails_iff rule frame numeric_range = field_iff rule frame rule.field

abbrev pub Satisfies : Frame → DataRule → Type 0
Satisfies frame rule = KindSatisfies rule.kind rule frame

-- Evaluating a list of rules gives no finding exactly if the dataset satisfies every rule: its row
-- count is within the bounds of a row count rule, and the column that another rule names is there
-- with no null, or only texts of the allowed list, or only numbers within the bounds.
pub evaluate_data_rules-eq-nil :
    (frame : Frame) (rules : List DataRule)
    → (evaluate_data_rules frame rules ≡ []) ↔ All (Satisfies frame) rules
unfolding evaluate_data_rules
evaluate_data_rules-eq-nil frame [] = (λ h. tt, λ h. refl)
evaluate_data_rules-eq-nil frame (rule ∷ rules) =
    let (f, g) = fails_iff rule frame rule.kind in
    let (p, q) = evaluate_data_rules-eq-nil frame rules in
    elim (Bool-cases (rule_fails rule rule.kind frame)) [
      | inl t ↦ rw t ((λ h. absurd (ground arith)), λ (a, r). absurd (ground (arith, g a)))
      | inr n ↦ rw n ((λ h. (f n, p h)), λ (a, r). q r)
    ]

-- A rule that the model accepts.
abbrev pub IsContract : DataRule → Type 0
IsContract rule = validate_contract rule ≡ ok rule

contract_severity : (rule : DataRule) → IsContract rule → rule.severity ≢ healthy
unfolding validate_contract
contract_severity rule h e = absurd (let k = rw e at h in ground arith)

-- Every finding of valid rules is Warning or Critical.
pub rules-AreAlarms :
    (frame : Frame) (rules : List DataRule)
    → All IsContract rules
    → AreAlarms (evaluate_data_rules frame rules)
unfolding evaluate_data_rules AreAlarms
rules-AreAlarms frame [] h = tt
rules-AreAlarms frame (rule ∷ rules) h =
    let rest = rules-AreAlarms frame rules h.1 in
    elim (Bool-cases (rule_fails rule rule.kind frame)) [
      | inl t ↦ rw t (contract_severity rule h.0, rest)
      | inr n ↦ rw n rest
    ]
