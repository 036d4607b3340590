-- ===== src/Validation/Comparison/Unanimous.antt =====
-- What `compare_reports` of src/millrace/validation/comparison.py finds out about the reports
-- themselves: the grouping by check loses no check of no warehouse.
use mathlib.Core.Path.{subst}
use millrace.Base.{
  String, Bool, true, ◌&&◌, not, Option, none, some, List, [], ◌∷◌, ◌≡◌, refl, sym, ap, ◌∙◌, arith,
  ◌⊎◌, inl, inr, all, any, keep, All-In, In, Bool-cases, if◌then◌else◌, str_eq, str_eq_iff, str_le,
}
use millrace.Base.Dict.{Dict, lookup, keys, lookup-insert}
use millrace.Base.Sort.{sort_by, In-sort_by}
use millrace.Validation.Models.{CheckResult, ValidationReport, is_passed, is_among}
use millrace.Validation.Service.{evidence_eq, is_empty_list}
use millrace.Validation.Comparison.{
  CheckKey, ByCheck, same_key, add_check, add_checks, group_checks, same_signature, same_results,
  missing_targets, report_passed, compare_reports,
}
use millrace.Validation.Comparison.Agreed.{IsAgreed, compare_reports-IsAgreed}

abbrev or_else : Option CheckResult → Option CheckResult → Option CheckResult
or_else none other = other
or_else (some check) other = some check

abbrev is_of : CheckKey → CheckResult → Bool
is_of key check = str_eq check.entity key.0 && str_eq check.name key.1

-- The last check of a report that has the entity and the name.
unfoldable pub last_check : CheckKey → List CheckResult → Option CheckResult
last_check key [] = none
last_check key (check ∷ checks) =
    or_else (last_check key checks) (if is_of key check then some check else none)

-- That of the report of a warehouse.
unfoldable pub check_of : CheckKey → String → Dict ValidationReport → Option CheckResult
check_of key target [] = none
check_of key target ((other, report) ∷ reports) =
    or_else (check_of key target reports)
      (if str_eq other target then last_check key report.checks else none)

-- The results that are grouped under a check.
results_of : CheckKey → ByCheck → Dict CheckResult
results_of key [] = []
results_of key ((other, results) ∷ rest) =
    let others = results_of key rest in if same_key other key then results else others

found_of : CheckKey → String → ByCheck → Option CheckResult
found_of key target grouped = lookup target (results_of key grouped)

or_else_assoc : (a b c : Option CheckResult) → or_else a (or_else b c) ≡ or_else (or_else a b) c
or_else_assoc none b c = refl
or_else_assoc (some x) b c = refl

same_key-eq : (a b c d : String) → same_key (a, b) (c, d) ≡ true → (a ≡ c) × (b ≡ d)
same_key-eq a b c d h = ground (arith, str_eq_iff a c, str_eq_iff b d)

found_of-add_check :
    (key : CheckKey) (target other : String) (check : CheckResult) (grouped : ByCheck)
    → found_of key target (add_check other check grouped)
      ≡ or_else
          (if str_eq other target then (if is_of key check then some check else none) else none)
          (found_of key target grouped)
unfolding found_of results_of add_check lookup
found_of-add_check key target other check [] = ground arith
found_of-add_check key target other check ((own, results) ∷ rest) = ground (
  arith,
  found_of-add_check key target other check rest,
  lookup-insert other target check results,
  str_eq_iff own.0 check.entity,
  str_eq_iff own.1 check.name,
  str_eq_iff own.0 key.0,
  str_eq_iff own.1 key.1,
  str_eq_iff check.entity key.0,
  str_eq_iff check.name key.1,
)

found_of-add_checks :
    (key : CheckKey) (target other : String) (checks : List CheckResult) (grouped : ByCheck)
    → found_of key target (add_checks other checks grouped)
      ≡ or_else
          (if str_eq other target then last_check key checks else none)
          (found_of key target grouped)
unfolding add_checks last_check
found_of-add_checks key target other [] grouped = ground arith
found_of-add_checks key target other (check ∷ checks) grouped =
    let one = found_of-add_check key target other check grouped in
    let rest = found_of-add_checks key target other checks (add_check other check grouped) in
    elim (Bool-cases (str_eq other target)) [
      | inr differ ↦ ground arith
      | inl match ↦
          rest
          ∙ (ap (or_else (if str_eq other target then last_check key checks else none)) one
              ∙ rw match (or_else_assoc (last_check key checks) _ _))
    ]

found_of-group_checks :
    (key : CheckKey) (target : String) (reports : Dict ValidationReport) (grouped : ByCheck)
    → found_of key target (group_checks reports grouped)
      ≡ or_else (check_of key target reports) (found_of key target grouped)
unfolding group_checks check_of
found_of-group_checks key target [] grouped = refl
found_of-group_checks key target ((other, report) ∷ reports) grouped =
    found_of-group_checks key target reports (add_checks other report.checks grouped)
    ∙ (ap (or_else (check_of key target reports))
          (found_of-add_checks key target other report.checks grouped)
        ∙ or_else_assoc (check_of key target reports) _ _)

or_else-none : (o : Option CheckResult) → or_else o none ≡ o
or_else-none none = refl
or_else-none (some check) = refl

-- The grouping finds for a warehouse the check that its report has.
found_of-check_of :
    (key : CheckKey) (target : String) (reports : Dict ValidationReport)
    → found_of key target (group_checks reports []) ≡ check_of key target reports
unfolding found_of results_of lookup
found_of-check_of key target reports =
    found_of-group_checks key target reports [] ∙ or_else-none (check_of key target reports)

results_of-In :
    (key : CheckKey) (target : String) (check : CheckResult) (grouped : ByCheck)
    → lookup target (results_of key grouped) ≡ some check
    → (entry : CheckKey × Dict CheckResult) × In entry grouped × (entry.1 ≡ results_of key grouped)
unfolding results_of lookup
results_of-In key target check [] h = cc
results_of-In key target check ((own, results) ∷ rest) h = elim (Bool-cases (same_key own key)) [
  | inl match ↦ ((own, results), inl refl, rw match refl)
  | inr differ ↦
      let (entry, m, same) = results_of-In key target check rest (ground arith) in
      (entry, inr m, same ∙ rw differ refl)
]

any-lookup :
    (target : String) (results : Dict CheckResult)
    → any (str_eq target) (keys results) ≡ true
    → (check : CheckResult) × (lookup target results ≡ some check)
unfolding keys lookup
any-lookup target [] h = cc
any-lookup target ((other, check) ∷ results) h = elim (Bool-cases (str_eq other target)) [
  | inl match ↦ rw match (check, refl)
  | inr differ ↦
      rw differ (
        any-lookup target results
          (ground (arith, str_eq_iff target other, str_eq_iff other target)))
]

empty_keep :
    (p : String → Bool) (xs : List String) (x : String)
    → is_empty_list (keep (λ y. not (p y)) xs) ≡ true
    → In x xs
    → p x ≡ true
empty_keep p [] x h m = absurd m
empty_keep p (y ∷ xs) x h (inl e) = ground arith
empty_keep p (y ∷ xs) x h (inr m) = empty_keep p xs x (ground arith) m

all-lookup :
    (p : CheckResult → Bool) (target : String) (check : CheckResult) (results : Dict CheckResult)
    → all (λ (entry : String × CheckResult). p entry.1) results ≡ true
    → lookup target results ≡ some check
    → p check ≡ true
unfolding lookup
all-lookup p target check [] h e = cc
all-lookup p target check ((other, first) ∷ results) h e = elim (Bool-cases (str_eq other target)) [
  | inl match ↦ ground arith
  | inr differ ↦ all-lookup p target check results (ground arith) (ground arith)
]

-- Two checks have one result: the verdict, and the evidence on both sides by Python's `==`.
pub record IsSameResult (a b : CheckResult) : Type 0 where
  pub passed : a.passed ≡ b.passed
  pub expected : evidence_eq a.expected b.expected ≡ true
  pub actual : evidence_eq a.actual b.actual ≡ true

same_signature-IsSameResult : (a b : CheckResult) → same_signature a b ≡ true → IsSameResult a b
unfolding same_signature
same_signature-IsSameResult a b h = record {
  passed = ground arith;
  expected = ground arith;
  actual = ground arith;
}

same_results-first :
    (results : Dict CheckResult) (target : String) (check : CheckResult)
    → same_results results ≡ true
    → lookup target results ≡ some check
    → (first : CheckResult) × ((other : String) (found : CheckResult)
        → lookup other results ≡ some found
        → (found ≡ first) ⊎ IsSameResult first found)
unfolding same_results lookup
same_results-first [] target check h e = cc
same_results-first ((own, first) ∷ results) target check h e = (
  first,
  λ other found at. elim (Bool-cases (str_eq own other)) [
    | inl match ↦ inl (ground arith)
    | inr differ ↦ inr (
        same_signature-IsSameResult first found
          (all-lookup (same_signature first) other found results h (ground arith)))
  ],
)

all-report_passed :
    (reports : Dict ValidationReport) (entry : String × ValidationReport)
    → all report_passed reports ≡ true
    → In entry reports
    → is_passed entry.1 ≡ true
all-report_passed [] entry h m = absurd m
all-report_passed (x ∷ reports) entry h (inl e) = ap (λ z. is_passed z.1) (sym e) ∙ ground arith
all-report_passed (x ∷ reports) entry h (inr m) = all-report_passed reports entry (ground arith) m

-- When the comparison passes, every report passed, and a check that the report of one warehouse has is
-- in the report of each, with the verdict and the evidence of one of them, the first.
pub compare_reports-IsUnanimous :
    (reports : Dict ValidationReport)
    → (compare_reports reports).passed ≡ true
    → ((entry : String × ValidationReport) → In entry reports → is_passed entry.1 ≡ true)
      × ((key : CheckKey) (target : String) (check : CheckResult)
          → check_of key target reports ≡ some check
          → (first : CheckResult) × ((other : String)
              → In other (keys reports)
              → (found : CheckResult) × (check_of key other reports ≡ some found)
                × ((found ≡ first) ⊎ IsSameResult first found)))
unfolding found_of missing_targets is_among
compare_reports-IsUnanimous reports h =
    let (passed, agreed) = compare_reports-IsAgreed reports h in
    (
      λ entry m. all-report_passed reports entry passed m,
      λ key target check at.
          let grouped = group_checks reports [] in
          let results = results_of key grouped in
          let here : lookup target results ≡ some check =
            found_of-check_of key target reports ∙ at in
          let targets = sort_by str_le (keys reports) in
          let (entry, m, is_entry) = results_of-In key target check grouped here in
          let agreed_entry = All-In (IsAgreed targets) entry grouped agreed m in
          let (complete, same) = subst (λ z. IsAgreed targets (entry.0, z)) is_entry agreed_entry in
          let (first, all_same) = same_results-first results target check same here in
          (
            first,
            λ other i.
                let (found, e) = any-lookup other results (
                  empty_keep (λ t. is_among t (keys results)) targets other complete
                    ((In-sort_by str_le other (keys reports)).1 i)) in
                (found, sym (found_of-check_of key other reports) ∙ e, all_same other found e),
          ),
    )
