-- ===== src/Suites/Yaml/Tests.antt =====
-- A step that is imported from YAML and exported again.
use testing_environment.Common.{String, false, none, some, [], ◌∷◌, ◌≡◌, refl}
use testing_environment.Common.Result.{ok}
use testing_environment.Suites.Flow.{text, whole, exists, poll_until, ExecutionStep}
use testing_environment.Suites.Yaml.{RawYamlStep, RawYamlRequest, to_execution_step}
use testing_environment.Suites.Yaml.Export.{to_yaml_step}
use testing_environment.Suites.Yaml.Configs.{KeepsSpace}
use testing_environment.Suites.Yaml.RoundTrip.{to_execution_step-to_yaml_step}

abbrev same : String → String
same s = s

same_keeps : KeepsSpace same
same_keeps = record { twice = λ s. refl; trims = λ s. refl; blanks = λ s. refl }

abbrev users : RawYamlRequest
users = record {
  method = some " GET ";
  path = some "/users ";
  headers = some (("accept", "json") ∷ ("empty", "") ∷ []);
  query = none;
  json = some (text "");
  expect = some (record {
    status = none;
    json_contains = none;
    assertions = some (
        record { field_path = some " $.id "; operator = some exists; expected_value = some "" }
        ∷ []);
  });
  save = some (("id", "$.id") ∷ []);
}

abbrev polls : RawYamlStep
polls = record {
  id = none;
  type = none;
  name = some "Wait for users ";
  timeout_ms = none;
  retry_policy = none;
  continue_on_failure = none;
  wait = none;
  poll = some (record {
    request = users;
    timeout_seconds = some (whole 10);
    timeout_ms = none;
    interval_seconds = none;
    interval_ms = some (whole 500);
    failure_message = none;
  });
  set_variable = none;
  assert = none;
  request = none;
}

abbrev step : ExecutionStep
step = record {
  id = "step-003";
  name = "Wait for users";
  version = "pollUntil/v1";
  config =
      poll_until
        (record {
          method = "GET";
          path = "/users";
          headers = some (("accept", "json") ∷ []);
          query = none;
          json = none;
          expect = record {
            status = 200;
            json_contains = none;
            assertions =
                some
                  (record { field_path = "$.id"; operator = exists; expected_value = none } ∷ []);
          };
          save = some (("id", "$.id") ∷ []);
        })
        (whole 10000) (whole 500) none;
  timeout_ms = whole 10000;
  retry_policy = record { max_attempts = whole 1; backoff_ms = whole 0 };
  continue_on_failure = false;
}

computed : Unit {0}
unfolding to_execution_step to_yaml_step
computed = tt

imported : to_execution_step same polls 2 ≡ ok step
unfolding computed
imported = refl

to_execution_step-to_yaml_step_example : to_execution_step same (to_yaml_step step) 5 ≡ ok step
to_execution_step-to_yaml_step_example =
    to_execution_step-to_yaml_step same same_keeps polls 2 5 step imported
