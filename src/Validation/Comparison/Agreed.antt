-- ===== src/Validation/Comparison/Agreed.antt =====
-- When the comparison of the warehouses passes.
use millrace.Base.{
  String, true, List, [], ◌∷◌, ◌++◌, ◌≡◌, refl, all, All, All-In, All-intro, arith, str_le,
}
use millrace.Base.Dict.{Dict, keys}
use millrace.Base.Sort.{sort_by, In-sort_by}
use millrace.Validation.Models.{CheckResult, ValidationReport}
use millrace.Validation.Service.{is_empty_list}
use millrace.Validation.Comparison.{
  CheckKey, missing_targets, same_results, disagreement, disagreements_of, group_checks, key_le,
  report_passed, compare_reports,
}

-- No target misses the check, and all targets have one result of it.
abbrev pub IsAgreed : List String → CheckKey × Dict CheckResult → Type 0
IsAgreed targets entry =
    (is_empty_list (missing_targets targets entry.1) ≡ true) × (same_results entry.1 ≡ true)

is_empty_list-append :
    {A : Type 0} (xs ys : List A)
    → is_empty_list (xs ++ ys) ≡ true
    → (is_empty_list xs ≡ true) × (is_empty_list ys ≡ true)
is_empty_list-append [] ys h = (refl, h)
is_empty_list-append (x ∷ xs) ys h = cc

disagreement-IsAgreed :
    (targets : List String) (entry : CheckKey × Dict CheckResult)
    → is_empty_list (disagreement targets entry) ≡ true
    → IsAgreed targets entry
unfolding disagreement
disagreement-IsAgreed targets entry h = (ground arith, ground arith)

disagreements_of-IsAgreed :
    (targets : List String) (entries : List (CheckKey × Dict CheckResult))
    → is_empty_list (disagreements_of targets entries) ≡ true
    → All (IsAgreed targets) entries
unfolding disagreements_of
disagreements_of-IsAgreed targets [] h = tt
disagreements_of-IsAgreed targets (entry ∷ entries) h =
    let (first, rest) =
      is_empty_list-append (disagreement targets entry) (disagreements_of targets entries) h in
    (disagreement-IsAgreed targets entry first, disagreements_of-IsAgreed targets entries rest)

-- When the comparison passes, every report passed, and every check that any warehouse made was
-- made on all of them with one result.
pub compare_reports-IsAgreed :
    (reports : Dict ValidationReport)
    → (compare_reports reports).passed ≡ true
    → (all report_passed reports ≡ true)
      × All (IsAgreed (sort_by str_le (keys reports))) (group_checks reports [])
unfolding compare_reports
compare_reports-IsAgreed reports h =
    let targets = sort_by str_le (keys reports) in
    let grouped = group_checks reports [] in
    let quiet : is_empty_list (disagreements_of targets (sort_by key_le grouped)) ≡ true =
      ground arith in
    let sorted = disagreements_of-IsAgreed targets (sort_by key_le grouped) quiet in
    (
      ground arith,
      All-intro (IsAgreed targets) grouped (λ entry m.
          All-In (IsAgreed targets) entry (sort_by key_le grouped) sorted
            ((In-sort_by key_le entry grouped).1 m)),
    )
