-- ===== src/Comparison/Revisions.antt =====
-- The comparison of the revisions of suites and of the images of two runs: `compareSuiteRevisions` and
-- `compareImageReferences` of test-runs/test-run-comparison.service.ts.
use testing_environment.Common.{
  ◌||◌, ◌==◌, ℕ, String, Bool, false, not, Option, none, some, List, [], ◌∷◌, ◌++◌, map,
  if◌then◌else◌, str_eq,
}
use testing_environment.Diagnosis.{ImageReference}
use testing_environment.Comparison.{SuiteRevision, differs, last_with}

pub record SuiteComparison : Type 0 where
  pub suite_name : String
  pub current_revision_number : ℕ
  pub baseline_revision_number : Option ℕ
  pub changed : Bool

abbrev pub suite_key : SuiteRevision → Option String
suite_key r = some r.suite_name

abbrev pub revision_of : Option SuiteRevision → Option ℕ
revision_of none = none
revision_of (some r) = some r.revision_number

abbrev pub is_other : ℕ → Option ℕ → Bool
is_other n none = false
is_other n (some m) = not (n == m)

unfoldable pub compare_suite_revisions :
    List SuiteRevision → List SuiteRevision → List SuiteComparison
compare_suite_revisions current baseline =
    map
      (λ entry.
        let number = revision_of (last_with suite_key entry.suite_name baseline) in
        record {
          suite_name = entry.suite_name;
          current_revision_number = entry.revision_number;
          baseline_revision_number = number;
          changed = is_other entry.revision_number number;
        })
      current

pub record ImageComparison : Type 0 where
  pub service_name : String
  pub current : Option String
  pub baseline : Option String
  pub changed : Bool

abbrev pub service_key : ImageReference → Option String
service_key r = some r.service_name

abbrev pub image_in : Option ImageReference → Option String
image_in none = none
image_in (some r) = some r.image

-- The image that a service has in the references: the last one for its name.
abbrev pub image_of : String → List ImageReference → Option String
image_of name references = image_in (last_with service_key name references)

abbrev pub has_text : String → List String → Bool
has_text s [] = false
has_text s (t ∷ ts) = str_eq t s || has_text s ts

-- `[...new Set(names)]`, after the names that are in the set already
abbrev pub distinct_from : List String → List String → List String
distinct_from seen [] = []
distinct_from seen (n ∷ ns) =
    let rest = distinct_from (n ∷ seen) ns in
    if has_text n seen then distinct_from seen ns else n ∷ rest

abbrev pub service_names : List ImageReference → List ImageReference → List String
service_names current baseline =
    map (λ r. r.service_name) current ++ map (λ r. r.service_name) baseline

unfoldable pub compare_image : List ImageReference → List ImageReference → String → ImageComparison
compare_image current baseline name =
    let a = image_of name current in
    let b = image_of name baseline in
    record { service_name = name; current = a; baseline = b; changed = differs a b }

unfoldable pub compare_image_references :
    List ImageReference → List ImageReference → List ImageComparison
unfolding compare_image
compare_image_references current baseline =
    map (compare_image current baseline) (distinct_from [] (service_names current baseline))
