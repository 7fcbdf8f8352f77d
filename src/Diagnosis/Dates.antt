-- ===== src/Diagnosis/Dates.antt =====
-- The dates that the state service writes are ones that a diagnosis can read.
use testing_environment.Common.{
  ℕ, String, ◌≡◌, ◌≢◌, Option, none, some, List, [], ◌∷◌, All, arith, or_else, if_lem, str_eq,
}
use testing_environment.Common.Time.{invalid_date}
use testing_environment.Runs.Status.{TestRunStatus, is_phase}
use testing_environment.Runs.Run.{TestRun, Stamp, iso, text, not_text}
use testing_environment.Runs.Rows.{
  status_name, next_phase_timestamps, or_keep, lookup_key, set_key, existing_stamps, text_entries,
}
use testing_environment.Runs.Updates.{transition_data}
use testing_environment.Diagnosis.Context.{phase_timestamp, stamp_of, date_of}
use testing_environment.Common.Result.{ok}
use testing_environment.Diagnosis.{TestResult, LogChunkPreview, RunDiagnosis, Metadata}
use testing_environment.Diagnosis.Engine.{diagnose}
use testing_environment.Diagnosis.Laws.{IsDated}
use testing_environment.Diagnosis.Agreement.{structured_lem}

abbrev IsReadable : Stamp → Type 0
IsReadable (iso ms) = Unit
IsReadable (text s) = ⊥
IsReadable not_text = Unit

abbrev pub AreReadable : Option (List (String × Stamp)) → Type 0
AreReadable none = Unit
AreReadable (some stamps) = All (λ e. IsReadable e.1) stamps

date_lem : (stamp : Stamp) → IsReadable stamp → date_of stamp ≢ some invalid_date
date_lem (iso ms) h e = ground arith
date_lem (text s) h e = h
date_lem not_text h e = ground arith

stamp_lem :
    (key : String) (stamps : List (String × Stamp))
    → All (λ e. IsReadable e.1) stamps
    → stamp_of key stamps ≢ some invalid_date
unfolding stamp_of
stamp_lem key [] h = λ e. ground arith
stamp_lem key ((k, stamp) ∷ rest) h =
    if_lem (λ o. o ≢ some invalid_date) (str_eq k key) (date_lem stamp h.0) (stamp_lem key rest h.1)

absent :
    (stamps : Option (List (String × Stamp))) (status : TestRunStatus)
    → AreReadable stamps
    → phase_timestamp stamps status ≢ some invalid_date
unfolding phase_timestamp
absent none status h = λ e. ground arith
absent (some stamps) status h = stamp_lem (status_name status) stamps h

pub AreReadable-IsDated : (run : TestRun) → AreReadable run.phase_timestamps → IsDated run
AreReadable-IsDated run h status = absent run.phase_timestamps status h

set_key_lem :
    (key : String) (stamp : Stamp) (stamps : List (String × Stamp))
    → IsReadable stamp
    → All (λ e. IsReadable e.1) stamps
    → All (λ e. IsReadable e.1) (set_key key stamp stamps)
unfolding set_key
set_key_lem key stamp [] s h = (s, tt)
set_key_lem key stamp ((k, v) ∷ rest) s h =
    if_lem (All (λ e. IsReadable e.1)) (str_eq k key) (s, h.1)
      (h.0, set_key_lem key stamp rest s h.1)

text_entries_lem :
    (stamps : List (String × Stamp))
    → All (λ e. IsReadable e.1) stamps
    → All (λ e. IsReadable e.1) (text_entries stamps)
unfolding text_entries
text_entries_lem [] h = tt
text_entries_lem ((k, iso ms) ∷ rest) h = (tt, text_entries_lem rest h.1)
text_entries_lem ((k, text s) ∷ rest) h = absurd h.0
text_entries_lem ((k, not_text) ∷ rest) h = text_entries_lem rest h.1

existing_lem :
    (stamps : Option (List (String × Stamp)))
    → AreReadable stamps
    → All (λ e. IsReadable e.1) (existing_stamps stamps)
unfolding existing_stamps
existing_lem none h = tt
existing_lem (some stamps) h = text_entries_lem stamps h

lookup_key_lem :
    (key : String) (stamps : List (String × Stamp)) (ms : ℕ)
    → All (λ e. IsReadable e.1) stamps
    → IsReadable (or_else (lookup_key key stamps) (iso ms))
unfolding lookup_key
lookup_key_lem key [] ms h = tt
lookup_key_lem key ((k, v) ∷ rest) ms h =
    if_lem (λ o. IsReadable (or_else o (iso ms))) (str_eq k key) h.0
      (lookup_key_lem key rest ms h.1)

next_lem :
    (run : TestRun) (target : TestRunStatus) (ms : ℕ)
    → AreReadable run.phase_timestamps
    → AreReadable (next_phase_timestamps run target ms)
unfolding next_phase_timestamps
next_lem run target ms h =
    let old = existing_lem run.phase_timestamps h in
    if_lem AreReadable (is_phase target)
      (set_key_lem (status_name target) _ _
        (lookup_key_lem (status_name target) (existing_stamps run.phase_timestamps) ms old) old)
      tt

or_keep_lem :
    (new old : Option (List (String × Stamp)))
    → AreReadable new
    → AreReadable old
    → AreReadable (or_keep new old)
or_keep_lem none old hn ho = ho
or_keep_lem (some stamps) old hn ho = hn

written_lem :
    (run row : TestRun) (target : TestRunStatus) (ms : ℕ) (changes : TestRun → TestRun)
    → AreReadable run.phase_timestamps
    → AreReadable row.phase_timestamps
    → AreReadable (transition_data run target ms changes row).phase_timestamps
unfolding transition_data
written_lem run row target ms changes hr hw =
    or_keep_lem (next_phase_timestamps run target ms) row.phase_timestamps
      (next_lem run target ms hr) hw

-- A transition writes only dates that a diagnosis can read: if the timestamps of the run that it read and of the
-- run that it writes to are such dates, then so are those of the run after it, and the engine does not
-- throw on that run, whatever its results and its log.
pub transition_data-IsDated :
    (run row : TestRun) (target : TestRunStatus) (ms : ℕ) (changes : TestRun → TestRun)
    (metadata : Option Metadata) (results : List TestResult) (previews : List LogChunkPreview)
    → AreReadable run.phase_timestamps
    → AreReadable row.phase_timestamps
    → AreReadable (transition_data run target ms changes row).phase_timestamps
      × ((d : Option RunDiagnosis) × (diagnose
              (record {
                row = transition_data run target ms changes row;
                execution_metadata = metadata;
              })
              results
              previews
            ≡ ok d))
transition_data-IsDated run row target ms changes metadata results previews hr hw =
    let written : TestRun = transition_data run target ms changes row in
    let h : AreReadable written.phase_timestamps = written_lem run row target ms changes hr hw in
    let (d, e, _) =
      structured_lem (record { row = written; execution_metadata = metadata }) results previews
        (AreReadable-IsDated written h) in
    (h, (d, e))
