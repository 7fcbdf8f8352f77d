-- ===== src/Comparison/Tests.antt =====
-- Two runs, their comparison, and the theorems about it.
use mathlib.Core.List.{Memᴰ}
use testing_environment.Common.{
  ℕ, String, Bool, false, Option, none, some, List, [], ◌∷◌, if◌then◌else◌, ◌≡◌, refl, sym, ◌∙◌,
  ◌↔◌, All, arith,
}
use testing_environment.Runs.Status.{passed}
use testing_environment.Runs.Run.{TestRun}
use testing_environment.Diagnosis.{TestResult, step_passed, step_failed, ImageReference}
use testing_environment.Diagnosis.Context.{empty_metadata}
use testing_environment.Comparison.{ComparisonRun}
use testing_environment.Comparison.Service.{
  is_baseline, find_baseline_run, compare, read_image_references,
}
use testing_environment.Comparison.Revisions.{compare_image_references, image_of}
use testing_environment.Comparison.Diffs.{summarize, build_step_diffs}
use testing_environment.Comparison.Images.{compare_image_references_iff}
use testing_environment.Comparison.Unchanged.{
  IsIdentified, IsRepeat, HasDistinctSuites, IsUnchanged, compare_same,
}

abbrev row : TestRun
row = record {
  status = passed;
  status_reason = none;
  failure_category = none;
  current_phase = none;
  phase_timestamps = none;
  queue_job_id = none;
  queued_at = some 1783332000000;
  enqueued_at = none;
  claimed_at = none;
  cancellation_requested_at = none;
  cancel_requested_at = none;
  cancel_requested_by = none;
  cancellation_reason = none;
  runner_id = some "runner-1";
  lease_acquired_at = none;
  lease_expires_at = none;
  heartbeat_at = none;
  attempt = 1;
  cleanup_error = none;
  started_at = none;
  finished_at = some 1783332090000;
  total_tests = 1;
  passed_tests = 0;
  failed_tests = 1;
  duration_ms = none;
  error_message = none;
}

abbrev result : TestResult
result = record {
  id = "t1";
  step_id = some "login";
  step_type = "apiRequest";
  suite_name = "Users";
  test_name = "Login";
  status = step_passed;
  method = "GET";
  path = "/login";
  expected_status = 200;
  actual_status = some 200;
  duration_ms = 50;
  error_message = none;
  assertion_results = none;
}

abbrev images : List ImageReference
images =
    record { service_name = "api"; image = "api:1" }
    ∷ record { service_name = "db"; image = "pg:16" }
    ∷ []

abbrev run : String → ℕ → ComparisonRun
run id finished = record {
  id = id;
  project_id = "p1";
  row = record row { finished_at = some finished };
  execution_metadata = some (record empty_metadata { image_references = some images });
  results = record result { id = id } ∷ [];
  environment_config_revision = some (record { id = "e1"; revision_number = 3 });
  suite_revisions = record { suite_name = "Users"; revision_number = 2 } ∷ [];
}

abbrev earlier : (ComparisonRun → Bool) → Option ComparisonRun
earlier p = if p (run "r1" 1000) then some (run "r1" 1000) else none

computed : Unit {0}
unfolding compare is_baseline find_baseline_run read_image_references build_step_diffs summarize
    IsIdentified HasDistinctSuites
computed = tt

-- A step that takes 61 ms in place of 50 is slower by more than a fifth, and one that takes 60 is not.
slower :
    (summarize (build_step_diffs (record result { duration_ms = 61 } ∷ []) (result ∷ []))
      ≡ record { steps_with_status_change = 0; steps_with_timing_regression = 1 })
    × (summarize (
          build_step_diffs
            (record result { duration_ms = 60; status = step_failed } ∷ [])
            (result ∷ []))
        ≡ record { steps_with_status_change = 1; steps_with_timing_regression = 0 })
unfolding computed
slower = (refl, refl)

-- Suites that share the id of a step: a step is compared with that of the last suite.
mixed :
    summarize (
      build_step_diffs
        (result ∷ record result { suite_name = "Other"; status = step_failed } ∷ [])
        (result ∷ record result { suite_name = "Other"; status = step_failed } ∷ []))
    ≡ record { steps_with_status_change = 1; steps_with_timing_regression = 0 }
unfolding computed
mixed = refl

only {ℓ} : {A : Type ℓ} (a x : A) → Memᴰ x (a ∷ []) → x ≡ a
only a x (Memᴰ.head e) = e
only a x (Memᴰ.tail m) = elim m [ ]

identified : IsIdentified (run "r1" 1000).results
unfolding computed
identified r x m n = (λ k e t. only _ x n ∙ sym (only _ r m), λ e t. only _ x n ∙ sym (only _ r m))

distinct : HasDistinctSuites (run "r2" 2000).suite_revisions
unfolding computed
distinct r x m n t = only _ x n ∙ sym (only _ r m)

repeated : IsRepeat (record result { id = "r1" }) (record result { id = "r2" })
repeated = record { step = refl; name = refl; status = refl; duration = λ h. omega arith }

compare_same_example : IsUnchanged (compare earlier (run "r2" 2000))
unfolding computed
compare_same_example =
    compare_same earlier (run "r2" 2000) (run "r1" 1000) refl refl refl refl (repeated, tt) distinct
      identified

compare_image_references_iff_example :
    All (λ c. c.changed ≡ false) (compare_image_references images images)
    ↔ ((s : String) → image_of s images ≡ image_of s images)
compare_image_references_iff_example = compare_image_references_iff images images
