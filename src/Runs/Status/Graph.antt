-- ===== src/Runs/Status/Graph.antt =====
-- The transition diagram of a test run.
use testing_environment.Common.{
  ℕ, ◌≤◌, ◌<◌, ◌≡◌, refl, ◌≢◌, ◌↔◌, ◌⊎◌, inl, inr, true, false, not, ◌||◌, List, [], ◌∷◌, length,
  Bool-cases, arith,
}
use testing_environment.Runs.Status.{
  TestRunStatus, created, queued, claimed, preparing_workspace, validating_environment,
  pulling_images, starting_environment, waiting_for_healthcheck, executing_tests,
  collecting_artifacts, cleaning_up, passed, test_failed, infra_failed, timed_out, cancel_requested,
  cancelled, is_terminal, is_active, is_cancellable, allows, same_status,
}

pub same_status_lem : (a b : TestRunStatus) → same_status a b ≡ true → a ≡ b
unfolding same_status
same_status_lem a b h = ground arith

-- How far a run has come.
abbrev pub stage : TestRunStatus → ℕ
stage created = 0
stage queued = 1
stage claimed = 2
stage preparing_workspace = 3
stage validating_environment = 4
stage pulling_images = 5
stage starting_environment = 6
stage waiting_for_healthcheck = 7
stage executing_tests = 8
stage collecting_artifacts = 9
stage cleaning_up = 10
stage cancel_requested = 11
stage passed = 12
stage test_failed = 12
stage infra_failed = 12
stage timed_out = 12
stage cancelled = 12

-- Every move of the table goes to a later stage.
pub stage-allows : (a b : TestRunStatus) → allows a b ≡ true → stage a < stage b
unfolding allows
stage-allows a b h = ground arith

no_move : (s t : TestRunStatus) → is_terminal s ≡ true → allows s t ≡ false
unfolding is_terminal allows
no_move s t h = ground arith

terminal_of_no_move :
    (s : TestRunStatus)
    → allows s cancelled ≡ false
    → allows s infra_failed ≡ false
    → is_terminal s ≡ true
unfolding is_terminal allows
terminal_of_no_move s h k = ground arith

terminal-active : (s : TestRunStatus) → is_terminal s ≡ not (is_active s)
unfolding is_terminal is_active
terminal-active s = ground arith

-- A status is terminal exactly if it is not active, and exactly if the table lists no move from it.
pub is_terminal_lem :
    (s : TestRunStatus)
    → (is_terminal s ≡ not (is_active s))
      × ((is_terminal s ≡ true) ↔ ((t : TestRunStatus) → allows s t ≡ false))
is_terminal_lem s = (
  terminal-active s,
  (λ h t. no_move s t h, λ h. terminal_of_no_move s (h cancelled) (h infra_failed)),
)

-- A run goes from status to status by moves of the table, any number of them.
pub data Moves (from : TestRunStatus) : TestRunStatus → Type 0 where
  stay : Moves from from
  next : {mid to : TestRunStatus} → Moves from mid → allows mid to ≡ true → Moves from to

pub Moves-trans : {a b c : TestRunStatus} → Moves a b → Moves b c → Moves a c
Moves-trans m stay = m
Moves-trans m (next k h) = next (Moves-trans m k) h

-- The transition check of the service: the same status, or a move of the table.
pub Moves-of_check : (a b : TestRunStatus) → (same_status a b || allows a b) ≡ true → Moves a b
Moves-of_check a b h = elim (Bool-cases (same_status a b)) [
  | inl e ↦ rw (same_status_lem a b e) stay
  | inr e ↦ next stay (rw e at h)
]

pub stage-Moves : {a b : TestRunStatus} → Moves a b → (a ≡ b) ⊎ (stage a < stage b)
stage-Moves stay = inl refl
stage-Moves {a} {b} (next {mid = m} k h) = elim (stage-Moves k) [
  | inl e ↦ inr (rw e (stage-allows m b h))
  | inr lt ↦ inr (let more = stage-allows m b h in omega arith)
]

-- A run that has come to a terminal status stays there.
pub Moves-of_terminal : {a b : TestRunStatus} → Moves a b → is_terminal a ≡ true → a ≡ b
Moves-of_terminal stay t = refl
Moves-of_terminal {a} {b} (next {mid = m} k h) t =
    let e = Moves-of_terminal k t in let none_listed = no_move m b (rw e at t) in cc

-- A history of a run, the latest status first.
abbrev pub IsHistory : List TestRunStatus → Type 0
IsHistory [] = Unit
IsHistory (s ∷ []) = Unit
IsHistory (s ∷ r ∷ rest) = (allows r s ≡ true) × IsHistory (r ∷ rest)

stage_history :
    (s : TestRunStatus) (rest : List TestRunStatus) → IsHistory (s ∷ rest) → length rest ≤ stage s
stage_history s [] h = omega arith
stage_history s (r ∷ rest) h = omega (arith, stage_history r rest h.1, stage-allows r s h.0)

stage-le : (s : TestRunStatus) → stage s ≤ 12
stage-le s = ground arith

-- However a run moves, its history holds at most 13 statuses: no run moves for ever.
pub length-history : (history : List TestRunStatus) → IsHistory history → length history ≤ 13
length-history [] h = omega arith
length-history (s ∷ rest) h = omega (arith, stage_history s rest h, stage-le s)

step_to_infra_failed :
    (s : TestRunStatus)
    → s ≢ cancel_requested
    → is_terminal s ≡ false
    → allows s infra_failed ≡ true
unfolding is_terminal allows
step_to_infra_failed s h t = ground arith

-- From every status the table has a way to a terminal one, in one move.
pub way_out :
    (s : TestRunStatus)
    → (t : TestRunStatus) × (is_terminal t ≡ true) × ((is_terminal s ≡ true) ⊎ (allows s t ≡ true))
unfolding is_terminal allows
way_out cancel_requested = (cancelled, refl, inr refl)
way_out s = (infra_failed, refl, ground arith)

-- The check that cancellation makes before it asks for `cancel_requested`, and the table, agree on
-- every status but `cleaning_up`, which passes the check and has no such move.
pub cancel_gap :
    (s : TestRunStatus)
    → (s ≢ cleaning_up → is_cancellable s ≡ allows s cancel_requested)
      × (s ≡ cleaning_up → (is_cancellable s ≡ true) × (allows s cancel_requested ≡ false))
unfolding is_cancellable allows
cancel_gap s = (λ h. ground arith, λ h. ground arith)
