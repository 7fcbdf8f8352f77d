-- ===== src/Diagnosis/Timeline.antt =====
-- The timeline of the phases of a run (`buildPhaseTimeline` of test-runs/test-run-diagnosis.service.ts).
use testing_environment.Common.{
  ℕ, ◌-◌, String, Bool, true, false, not, ◌&&◌, ◌||◌, Option, none, some, List, [], ◌∷◌, or_try,
  is_some, if◌then◌else◌,
}
use testing_environment.Common.Time.{Moment, at, invalid_date, iso_text}
use testing_environment.Common.Result.{Result, ok, err, ◌>>=◌}
use testing_environment.Runs.Status.{queued}
use testing_environment.Runs.Run.{TestRun}
use testing_environment.Diagnosis.{DiagnosisRun, RangeError, invalid_time}
use testing_environment.Diagnosis.Context.{phase_timestamp, read_execution_metadata}
use testing_environment.Diagnosis.Phases.{
  PhaseId, queue, image_preparation, environment_startup, cleanup, same_phase, PhaseDefinition,
  phase_definitions, PhaseStatus, pending, skipped, failed, active, completed, TimelineEntry,
  is_ended, first_timestamp, failed_phase_id, active_phase_id, moment,
}

-- When a phase began.
unfoldable pub phase_start : TestRun → PhaseDefinition → Option Moment
unfolding same_phase first_timestamp phase_timestamp
phase_start run d =
    if same_phase d.id queue
    then or_try (moment run.queued_at) (phase_timestamp run.phase_timestamps queued)
    else first_timestamp run d.backend_statuses

-- `phaseStarts.slice(index + 1).find((value) => value !== undefined)`
unfoldable pub next_start : TestRun → List PhaseDefinition → Option Moment
unfolding phase_start
next_start run [] = none
next_start run (d ∷ rest) = or_try (phase_start run d) (next_start run rest)

-- `date?.toISOString() ?? null`
unfoldable pub iso_or_null : Option Moment → Result RangeError (Option String)
unfolding iso_text
iso_or_null none = ok none
iso_or_null (some (at ms)) = ok (some (iso_text ms))
iso_or_null (some invalid_date) = err invalid_time

-- `Math.max(finishedAt - startedAt, 0)`. Of a date that is not valid no entry comes to be.
abbrev pub duration : Option Moment → Option Moment → Option ℕ
duration (some (at start)) (some (at finish)) = some (finish - start)
duration _ _ = none

abbrev is_optional : PhaseId → Bool
is_optional image_preparation = true
is_optional environment_startup = true
is_optional _ = false

unfoldable pub is_phase_id : PhaseId → Option PhaseId → Bool
unfolding same_phase
is_phase_id id none = false
is_phase_id id (some other) = same_phase id other

abbrev uses_compose : Option Bool → Bool
uses_compose none = true
uses_compose (some b) = b

unfoldable pub phase_status :
    DiagnosisRun → PhaseDefinition → Option Moment → Option Moment → PhaseStatus
unfolding is_ended failed_phase_id active_phase_id is_phase_id
phase_status run d started finished =
    if not (uses_compose (read_execution_metadata run.execution_metadata).uses_docker_compose)
      && is_optional d.id
      && not (is_some started)
    then skipped
    else if is_phase_id d.id (failed_phase_id run.row)
    then failed
    else if is_phase_id d.id (active_phase_id run.row)
    then active
    else if is_some started && (is_some finished || is_ended run.row.status)
    then completed
    else pending

-- When a phase ended: when a later one began, or the run finished.
unfoldable pub phase_finish : TestRun → PhaseDefinition → List PhaseDefinition → Option Moment
unfolding next_start same_phase
phase_finish run d rest =
    or_try (next_start run rest) (if same_phase d.id cleanup then moment run.finished_at else none)

-- The entry of a phase that the phases `rest` follow.
unfoldable pub timeline_entry :
    DiagnosisRun → PhaseDefinition → List PhaseDefinition → Result RangeError TimelineEntry
unfolding phase_start phase_finish phase_status iso_or_null
timeline_entry run d rest =
    let started = phase_start run.row d in
    let finished = phase_finish run.row d rest in
    do
      started_at ← iso_or_null started
      finished_at ← iso_or_null finished
      ok (record {
        id = d.id;
        label = d.label;
        status = phase_status run d started finished;
        started_at = started_at;
        finished_at = finished_at;
        duration_ms = duration started finished;
      })

unfoldable pub timeline :
    DiagnosisRun → List PhaseDefinition → Result RangeError (List TimelineEntry)
unfolding timeline_entry
timeline run [] = ok []
timeline run (d ∷ rest) = do
  entry ← timeline_entry run d rest
  entries ← timeline run rest
  ok (entry ∷ entries)

unfoldable pub build_phase_timeline : DiagnosisRun → Result RangeError (List TimelineEntry)
unfolding timeline
build_phase_timeline run = timeline run phase_definitions
