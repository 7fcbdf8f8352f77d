-- ===== src/Runner/Lifecycle/Moves.antt =====
-- The statuses through which an execution goes, and those in which it may break off.
use testing_environment.Common.{◌≡◌, refl, true, false}
use testing_environment.Runs.Status.{
  TestRunStatus, queued, claimed, preparing_workspace, validating_environment, pulling_images,
  starting_environment, waiting_for_healthcheck, executing_tests, collecting_artifacts, cleaning_up,
  is_terminal, is_phase, allows,
}
use testing_environment.Runner.Lifecycle.Marks.{IsLive}

pub queued_lives : IsLive queued
unfolding is_terminal allows
queued_lives = record { not_over = refl; may_fail = refl; may_cancel = refl }

pub claimed_lives : IsLive claimed
unfolding is_terminal allows
claimed_lives = record { not_over = refl; may_fail = refl; may_cancel = refl }

pub preparing_lives : IsLive preparing_workspace
unfolding is_terminal allows
preparing_lives = record { not_over = refl; may_fail = refl; may_cancel = refl }

pub validating_lives : IsLive validating_environment
unfolding is_terminal allows
validating_lives = record { not_over = refl; may_fail = refl; may_cancel = refl }

pub pulling_lives : IsLive pulling_images
unfolding is_terminal allows
pulling_lives = record { not_over = refl; may_fail = refl; may_cancel = refl }

pub starting_lives : IsLive starting_environment
unfolding is_terminal allows
starting_lives = record { not_over = refl; may_fail = refl; may_cancel = refl }

pub waiting_lives : IsLive waiting_for_healthcheck
unfolding is_terminal allows
waiting_lives = record { not_over = refl; may_fail = refl; may_cancel = refl }

pub executing_lives : IsLive executing_tests
unfolding is_terminal allows
executing_lives = record { not_over = refl; may_fail = refl; may_cancel = refl }

pub collecting_lives : IsLive collecting_artifacts
unfolding is_terminal allows
collecting_lives = record { not_over = refl; may_fail = refl; may_cancel = refl }

-- The phase that follows a status in an execution.
pub record Leads (status phase : TestRunStatus) : Type 0 where
  pub not_over : is_terminal status ≡ false
  pub allowed : allows status phase ≡ true
  pub is_next : is_phase phase ≡ true

pub claimed-Leads : Leads claimed preparing_workspace
unfolding is_terminal allows is_phase
claimed-Leads = record { not_over = refl; allowed = refl; is_next = refl }

pub preparing-Leads : Leads preparing_workspace validating_environment
unfolding is_terminal allows is_phase
preparing-Leads = record { not_over = refl; allowed = refl; is_next = refl }

pub validating-Leads : Leads validating_environment pulling_images
unfolding is_terminal allows is_phase
validating-Leads = record { not_over = refl; allowed = refl; is_next = refl }

pub pulling-Leads : Leads pulling_images starting_environment
unfolding is_terminal allows is_phase
pulling-Leads = record { not_over = refl; allowed = refl; is_next = refl }

pub starting-Leads : Leads starting_environment waiting_for_healthcheck
unfolding is_terminal allows is_phase
starting-Leads = record { not_over = refl; allowed = refl; is_next = refl }

pub waiting-Leads : Leads waiting_for_healthcheck executing_tests
unfolding is_terminal allows is_phase
waiting-Leads = record { not_over = refl; allowed = refl; is_next = refl }

pub executing-Leads : Leads executing_tests collecting_artifacts
unfolding is_terminal allows is_phase
executing-Leads = record { not_over = refl; allowed = refl; is_next = refl }

pub collecting-Leads : Leads collecting_artifacts cleaning_up
unfolding is_terminal allows is_phase
collecting-Leads = record { not_over = refl; allowed = refl; is_next = refl }
