-- ===== src/Diagnosis/Details.antt =====
-- The length of the texts that a diagnosis quotes.
use testing_environment.Common.{String, ◌≤◌, ◌≡◌, ◌⊎◌}
use testing_environment.Common.Text.{units, ◌<>◌}
use testing_environment.Diagnosis.{LogChunkPreview}

-- A text that is shown has at most 240 code units, not counting the sign at its end that more followed.
abbrev pub IsShown : String → Type 0
IsShown s = (units s ≤ 240) ⊎ ((start : String) × (s ≡ start <> "…") × (units start ≤ 240))

abbrev HasShown : LogChunkPreview → Type 0
HasShown chunk = IsShown chunk.preview
