-- ===== src/Diagnosis/Marks.antt =====
-- The phases that a timeline marks as failed or as active.
use testing_environment.Common.{
  ℕ, ◌+◌, ◌≤◌, ◌≡◌, refl, inl, inr, Bool, true, false, Option, none, some, List, [], ◌∷◌, map,
  arith, Bool-cases, or_true, ◌⊎◌, or_try, if◌then◌else◌,
}
use testing_environment.Common.Time.{Moment}
use testing_environment.Common.Result.{Result, ok, err, ◌>>=◌, Returns, bind-Returns}
use testing_environment.Runs.Run.{TestRun}
use testing_environment.Diagnosis.{DiagnosisRun, RangeError}
use testing_environment.Diagnosis.Phases.{
  PhaseId, same_phase, PhaseDefinition, phase_definitions, PhaseStatus, pending, skipped, failed,
  active, completed, TimelineEntry, is_failure, is_ended, failed_phase_id, active_phase_id,
}
use testing_environment.Diagnosis.Timeline.{
  phase_status, timeline_entry, timeline, build_phase_timeline, is_phase_id, iso_or_null,
  phase_start, phase_finish,
}

abbrev is_mark : PhaseStatus → ℕ
is_mark failed = 1
is_mark active = 1
is_mark _ = 0

abbrev is_failed : PhaseStatus → ℕ
is_failed failed = 1
is_failed _ = 0

-- How many entries are marked as failed or active.
abbrev pub marked : List TimelineEntry → ℕ
marked [] = 0
marked (e ∷ es) = is_mark e.status + marked es

abbrev pub ids : List TimelineEntry → List PhaseId
ids es = map (λ e. e.id) es

-- The one phase that may be marked.
abbrev the_phase : DiagnosisRun → Option PhaseId
the_phase run = or_try (failed_phase_id run.row) (active_phase_id run.row)

abbrev indicator : Bool → ℕ
indicator b = if b then 1 else 0

unfoldable occurrences : Option PhaseId → List PhaseDefinition → ℕ
unfolding is_phase_id
occurrences p [] = 0
occurrences p (d ∷ ds) = indicator (is_phase_id d.id p) + occurrences p ds

-- A run in which a phase failed has ended, so none is active.
exclusive : (run : TestRun) → (failed_phase_id run ≡ none) ⊎ (active_phase_id run ≡ none)
unfolding failed_phase_id active_phase_id is_ended
exclusive run = elim (Bool-cases (is_failure run.status)) [
  | inl p ↦ inr (rw (p, or_true) refl)
  | inr p ↦ inl (rw p refl)
]

abbrev pub status_of : Bool → PhaseId → Option PhaseId → Option PhaseId → Bool → PhaseStatus
status_of skips id f a ends =
    if skips
    then skipped
    else if is_phase_id id f
    then failed
    else if is_phase_id id a
    then active
    else if ends
    then completed
    else pending

one_mark :
    (skips b ends : Bool) (m : PhaseStatus)
    → is_mark m ≤ 1
    → is_mark (if skips then skipped else if b then m else if ends then completed else pending)
      ≤ indicator b
one_mark true b ends m h = ground arith
one_mark false true ends m h = h
one_mark false false ends m h = ground arith

or_try-none : (f : Option PhaseId) → or_try f none ≡ f
or_try-none none = refl
or_try-none (some p) = refl

status_of_lem :
    (skips : Bool) (id : PhaseId) (f a : Option PhaseId) (ends : Bool)
    → (f ≡ none) ⊎ (a ≡ none)
    → is_mark (status_of skips id f a ends) ≤ indicator (is_phase_id id (or_try f a))
unfolding is_phase_id
status_of_lem skips id f a ends (inl e) =
    rw e (one_mark skips (is_phase_id id a) ends active (omega arith))
status_of_lem skips id f a ends (inr e) =
    rw (e, or_try-none) (one_mark skips (is_phase_id id f) ends failed (omega arith))

status_lem :
    (run : DiagnosisRun) (d : PhaseDefinition) (started finished : Option Moment)
    → is_mark (phase_status run d started finished) ≤ indicator (is_phase_id d.id (the_phase run))
unfolding phase_status
status_lem run d started finished =
    status_of_lem _ d.id (failed_phase_id run.row) (active_phase_id run.row) _ (exclusive run.row)

occurrences_lem : (p : Option PhaseId) → occurrences p phase_definitions ≤ 1
unfolding occurrences is_phase_id same_phase
occurrences_lem none = omega arith
occurrences_lem (some p) = ground arith

abbrev marks_of : Result RangeError (List TimelineEntry) → ℕ
marks_of (ok es) = marked es
marks_of (err e) = 0

-- An entry and those after it.
cons_lem :
    (r : Result RangeError TimelineEntry) (rest : Result RangeError (List TimelineEntry)) (k : ℕ)
    → Returns (λ e. is_mark e.status ≤ k) r
    → marks_of (do e ← r; es ← rest; ok (e ∷ es)) ≤ k + marks_of rest
cons_lem (err x) rest k h = omega arith
cons_lem (ok e) (err x) k h = omega arith
cons_lem (ok e) (ok es) k h = omega (arith, h)

entry_lem :
    (run : DiagnosisRun) (d : PhaseDefinition) (rest : List PhaseDefinition)
    → Returns
        (λ e. is_mark e.status ≤ indicator (is_phase_id d.id (the_phase run)))
        (timeline_entry run d rest)
unfolding timeline_entry
entry_lem run d rest =
    bind-Returns _ (iso_or_null (phase_start run.row d)) _ (λ s.
      bind-Returns _ (iso_or_null (phase_finish run.row d rest)) _ (λ f. status_lem run d _ _))

timeline_lem :
    (run : DiagnosisRun) (ds : List PhaseDefinition)
    → marks_of (timeline run ds) ≤ occurrences (the_phase run) ds
unfolding timeline occurrences
timeline_lem run [] = omega arith
timeline_lem run (d ∷ ds) = omega (
  arith,
  cons_lem (timeline_entry run d ds) (timeline run ds)
      (indicator (is_phase_id d.id (the_phase run))) (entry_lem run d ds),
  timeline_lem run ds,
)

pub marked_lem :
    (run : DiagnosisRun) (es : List TimelineEntry)
    → build_phase_timeline run ≡ ok es
    → marked es ≤ 1
unfolding build_phase_timeline
marked_lem run es e =
    let h : marks_of (timeline run phase_definitions) ≤ 1 =
      omega (arith, timeline_lem run phase_definitions, occurrences_lem (the_phase run)) in
    rw e at h
