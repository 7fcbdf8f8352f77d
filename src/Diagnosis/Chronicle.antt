-- ===== src/Diagnosis/Chronicle.antt =====
-- What the timeline of a run shows.
use testing_environment.Common.{
  ℕ, ◌≤◌, ◌≡◌, ◌≢◌, refl, inl, inr, Bool, true, false, Option, none, some, List, [], ◌∷◌, map, All,
  arith, Bool-cases, or_try, if◌then◌else◌, if_lem, String,
}
use testing_environment.Common.Time.{Moment, at, invalid_date}
use testing_environment.Common.Result.{ok}
use testing_environment.Runs.Status.{TestRunStatus, queued}
use testing_environment.Runs.Run.{TestRun}
use testing_environment.Diagnosis.{DiagnosisRun}
use testing_environment.Diagnosis.Phases.{
  PhaseId, same_phase, queue, cleanup, PhaseDefinition, phase_definitions, failed, active, pending,
  skipped, completed, TimelineEntry, is_failure, is_ended, failed_phase_id, active_phase_id,
  first_timestamp, moment,
}
use testing_environment.Diagnosis.Timeline.{
  phase_status, timeline_entry, timeline, build_phase_timeline, iso_or_null, phase_start,
  phase_finish, next_start, is_phase_id, duration,
}
use testing_environment.Diagnosis.Laws.{IsDated}
use testing_environment.Diagnosis.Marks.{marked, ids, marked_lem, status_of}

-- Not a date that could not be parsed.
abbrev IsValid : Option Moment → Type 0
IsValid o = o ≢ some invalid_date

or_try-IsValid : (a b : Option Moment) → IsValid a → IsValid b → IsValid (or_try a b)
or_try-IsValid none b ha hb = hb
or_try-IsValid (some m) b ha hb = ha

moment-IsValid : (o : Option ℕ) → IsValid (moment o)
moment-IsValid none e = ground arith
moment-IsValid (some ms) e = ground arith

none-IsValid : IsValid none
none-IsValid e = ground arith

module _ (run : TestRun) (dated : IsDated run) where
  first_timestamp-IsValid : (statuses : List TestRunStatus) → IsValid (first_timestamp run statuses)
  unfolding first_timestamp
  first_timestamp-IsValid [] = none-IsValid
  first_timestamp-IsValid (s ∷ ss) = or_try-IsValid _ _ (dated s) (first_timestamp-IsValid ss)

  start-IsValid : (d : PhaseDefinition) → IsValid (phase_start run d)
  unfolding phase_start
  start-IsValid d =
      if_lem IsValid (same_phase d.id queue)
        (or_try-IsValid _ _ (moment-IsValid run.queued_at) (dated queued))
        (first_timestamp-IsValid d.backend_statuses)

  next-IsValid : (ds : List PhaseDefinition) → IsValid (next_start run ds)
  unfolding next_start
  next-IsValid [] = none-IsValid
  next-IsValid (d ∷ ds) = or_try-IsValid _ _ (start-IsValid d) (next-IsValid ds)

  finish-IsValid :
      (d : PhaseDefinition) (ds : List PhaseDefinition) → IsValid (phase_finish run d ds)
  unfolding phase_finish
  finish-IsValid d ds =
      or_try-IsValid _ _ (next-IsValid ds)
        (if_lem IsValid (same_phase d.id cleanup) (moment-IsValid run.finished_at) none-IsValid)

iso_lem : (o : Option Moment) → IsValid o → (t : Option String) × (iso_or_null o ≡ ok t)
unfolding iso_or_null
iso_lem none h = (none, refl)
iso_lem (some (at ms)) h = (_, refl)
iso_lem (some invalid_date) h = absurd (h refl)

-- An entry is marked as failed only if the run has failed, and as active only if it has not ended.
abbrev pub IsHonest : DiagnosisRun → TimelineEntry → Type 0
IsHonest run e =
    (e.status ≡ failed → is_failure run.row.status ≡ true)
    × (e.status ≡ active → is_ended run.row.status ≡ false)

failed_lem : (run : TestRun) → failed_phase_id run ≢ none → is_failure run.status ≡ true
unfolding failed_phase_id
failed_lem run h = elim (Bool-cases (is_failure run.status)) [
  | inl p ↦ p
  | inr p ↦ absurd (h (rw p refl))
]

active_lem : (run : TestRun) → active_phase_id run ≢ none → is_ended run.status ≡ false
unfolding active_phase_id
active_lem run h = elim (Bool-cases (is_ended run.status)) [
  | inl p ↦ absurd (h (rw p refl))
  | inr p ↦ p
]

no_failed :
    (skips b ends : Bool)
    → (if skips then skipped else if b then active else if ends then completed else pending)
      ≢ failed
no_failed skips b ends = ground arith

no_active :
    (skips b ends : Bool)
    → (if skips then skipped else if b then failed else if ends then completed else pending)
      ≢ active
no_active skips b ends = ground arith

failed_of :
    (skips : Bool) (id : PhaseId) (f a : Option PhaseId) (ends : Bool)
    → status_of skips id f a ends ≡ failed
    → f ≢ none
unfolding is_phase_id
failed_of skips id none a ends e z = no_failed skips (is_phase_id id a) ends e
failed_of skips id (some p) a ends e z = ground arith

active_of :
    (skips : Bool) (id : PhaseId) (f a : Option PhaseId) (ends : Bool)
    → status_of skips id f a ends ≡ active
    → a ≢ none
unfolding is_phase_id
active_of skips id f none ends e z = no_active skips (is_phase_id id f) ends e
active_of skips id f (some p) ends e z = ground arith

status_lem :
    (run : DiagnosisRun) (d : PhaseDefinition) (started finished : Option Moment)
    → (phase_status run d started finished ≡ failed → is_failure run.row.status ≡ true)
      × (phase_status run d started finished ≡ active → is_ended run.row.status ≡ false)
unfolding phase_status
status_lem run d started finished = (
  λ e. failed_lem run.row (failed_of _ d.id _ (active_phase_id run.row) _ e),
  λ e. active_lem run.row (active_of _ d.id (failed_phase_id run.row) _ _ e),
)

entry_done :
    (run : DiagnosisRun) (d : PhaseDefinition) (ds : List PhaseDefinition)
    → IsDated run.row
    → (e : TimelineEntry) × (timeline_entry run d ds ≡ ok e) × (e.id ≡ d.id) × IsHonest run e
unfolding timeline_entry
entry_done run d ds dated =
    let started = phase_start run.row d in
    let finished = phase_finish run.row d ds in
    let (s, es) = iso_lem started (start-IsValid run.row dated d) in
    let (f, ef) = iso_lem finished (finish-IsValid run.row dated d ds) in
    let e : TimelineEntry = record {
      id = d.id;
      label = d.label;
      status = phase_status run d started finished;
      started_at = s;
      finished_at = f;
      duration_ms = duration started finished;
    } in
    (e, rw (es, ef) refl, refl, status_lem run d started finished)

-- Of dates that are valid the timeline comes to be.
timeline_done :
    (run : DiagnosisRun) (ds : List PhaseDefinition)
    → IsDated run.row
    → (es : List TimelineEntry) × (timeline run ds ≡ ok es)
      × (ids es ≡ map (λ d. d.id) ds)
      × All (IsHonest run) es
unfolding timeline
timeline_done run [] dated = ([], refl, refl, tt)
timeline_done run (d ∷ ds) dated =
    let (e, ee, ei, eh) = entry_done run d ds dated in
    let (rest, er, ri, rh) = timeline_done run ds dated in
    (e ∷ rest, rw (ee, er) refl, cc, (eh, rh))

-- If every timestamp of the run is a date, its timeline has the nine phases in their order. At most one of
-- them is marked as failed or active, as failed only if the run has failed, and as active only if it has
-- not ended.
pub build_phase_timeline_lem :
    (run : DiagnosisRun)
    → IsDated run.row
    → (es : List TimelineEntry) × (build_phase_timeline run ≡ ok es)
      × (ids es ≡ map (λ d. d.id) phase_definitions)
      × (marked es ≤ 1)
      × All (IsHonest run) es
unfolding build_phase_timeline
build_phase_timeline_lem run dated =
    let (es, e, i, h) = timeline_done run phase_definitions dated in
    (es, e, i, marked_lem run es e, h)
