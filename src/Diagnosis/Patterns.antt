-- ===== src/Diagnosis/Patterns.antt =====
-- The patterns by which a message is classified (test-runs/failure-diagnosis/failure-diagnosis.patterns.ts).
use Prim.Native.Char.{Char, code}
use testing_environment.Common.{String, Bool, not, ◌||◌, Option, ◌==◌, or_try}
use testing_environment.Common.Text.{is_digit}
use testing_environment.Common.Regex.{Regex, word, many, maybe, many1, ◌~◌, ◌/◌, capture, nothing}

unfoldable pub port_conflict_pattern : Regex
port_conflict_pattern =
    word "port is already allocated"
    / word "address already in use"
    / word "Bind for"
    / word "ports are not available"

-- `.`
abbrev in_line : Char → Bool
in_line c = not (code c == 10 || code c == 13 || code c == 8232 || code c == 8233)

unfoldable pub container_exit_pattern : Regex
container_exit_pattern =
    word "failed with code " ~ many1 is_digit
    / word "exited " ~ maybe (word "(") ~ many1 is_digit ~ maybe (word ")")
    / word "container " ~ many in_line ~ word " exited"
    / word "non-zero exit"

unfoldable pub image_pull_pattern : Regex
image_pull_pattern =
    word "pull" / word "image pull" / word "manifest unknown" / word "repository does not exist"

unfoldable pub network_pattern : Regex
network_pattern =
    word "network"
    / word "ECONNREFUSED"
    / word "ENOTFOUND"
    / word "EAI_AGAIN"
    / word "getaddrinfo"
    / word "ECONNRESET"
    / word "fetch failed"

unfoldable pub timeout_pattern : Regex
timeout_pattern = word "timeout" / word "timed out" / word "aborted" / word "AbortError"

unfoldable pub variable_extraction_pattern : Regex
variable_extraction_pattern =
    word "variable"
    / word "jsonpath"
    / word "path not found"
    / word "undefined variable"
    / word "failed to extract"

abbrev digit_or_dot : Char → Bool
digit_or_dot c = is_digit c || code c == 46

unfoldable pub extract_port_from_message : String → Option String
unfolding capture
extract_port_from_message message =
    or_try
      (capture (word "Bind for " ~ many1 digit_or_dot ~ word ":") (many1 is_digit) nothing message)
      (capture (word "port ") (many1 is_digit) nothing message)

unfoldable pub extract_exit_code : String → Option String
unfolding capture
extract_exit_code message =
    or_try
      (or_try (capture (word "exited (") (many1 is_digit) (word ")") message)
        (capture (word "exited with code ") (many1 is_digit) nothing message))
      (capture (word "failed with code ") (many1 is_digit) nothing message)
