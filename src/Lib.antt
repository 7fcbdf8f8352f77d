-- ===== src/Lib.antt =====
-- A verification library of the backend of the testing environment, a service that runs a project's
-- test suites against an environment of containers. Paths are below testing-environment-backend/src/
-- unless they start with prisma/.
--
-- Parts and files
--
-- Common: what the modules share. The services are asynchronous methods on a database table. Act.antt
-- has such a method as a function of a world, which is the table, the clock and a schedule: at each
-- `await` before a query the next entry of the schedule happens, in which other processes write and
-- time passes. A query or a conditional update is itself atomic, as `updateMany` is in the database.
-- Table.antt is the interface to Prisma: a lookup by key and a conditional update with its count, with
-- their laws as fields of a record, and a table of functions that meets them.
-- Act/Guarantee.antt is rely and guarantee reasoning for these methods.
--
-- Runs: the state of a test run (test-runs/test-run-state.service.ts,
-- test-runs/test-run-status.constants.ts, `TestRun` of prisma/schema.prisma). Status.antt has the
-- statuses and the transition table, Run.antt the row and the errors, Rows.antt the checks on a row and
-- the `where` of each update, Updates.antt its `data`, State.antt and State/Ending.antt the methods of
-- TestRunStateService. Status/Graph.antt, Progress.antt, Guarantee.antt and Operations.antt with
-- their child modules hold what is proved of them.
--
-- Access: who may do what (authorization/permission.service.ts, resource-resolver.service.ts and
-- permissions.guard.ts). Permissions.antt has the check of a principal, Resources.antt the resolution of
-- the resource that a request names and the guard; Laws.antt and Isolation.antt the proofs.
--
-- Suites: the compiler of test suites (`compileVisual` of test-suites/execution-plan-compiler.service.ts,
-- `migrate` of visual-dsl-migrator.service.ts, `normalizePlan` of yaml-suite-adapter.service.ts, and
-- test-suites/types). Order.antt has `sortNodes`, Flow.antt the flow and the plan, Validation.antt the
-- migration and the checks, Steps.antt the configuration of a step, Compiler.antt the rest. Invariant,
-- Sorted, Topological and Cycles below Order are the proof that the order is right, Plan.antt,
-- Dependencies.antt and Warnings.antt what follows for the plan. Yaml.antt has the import of a step from YAML and
-- Yaml/Export.antt its export; Cleaning, Configs and RoundTrip below Yaml hold the proofs.
--
-- Assertions: the assertions on a response (runner/assertion-engine.service.ts), with `contains` and the
-- paths; Laws.antt says when they pass, Reflexive.antt that a value contains itself.
--
-- Subscriptions: the limits of a company's plan (subscriptions/subscriptions.service.ts) on a snapshot of
-- the tables; the start of the month is a parameter.
--
-- Queue: the queue of runs (queue/test-run-queue.service.ts) and the cancellation of a run (`cancel` of
-- test-runs/test-runs.service.ts). The job queue behind BullMQ is a record of operations and laws on the
-- store that has the table of runs. Safe.antt and Progress.antt are about the queue among other
-- processes, Cancel.antt about a queued run that is cancelled. Recovery.antt has the recovery of queued
-- runs and of expired leases (queue/test-run-queue-recovery.service.ts) and Janitor.antt what
-- it does to a run.
--
-- Diagnosis: why a run failed (test-runs/failure-diagnosis/ and test-runs/test-run-diagnosis.service.ts).
-- Common/Regex.antt has the regular expressions that the sources use, Common/Time.antt `toISOString`.
-- Patterns.antt and Context.antt have the patterns and the context of a diagnosis, Infrastructure,
-- Containers, Health and Steps the diagnoses, Engine.antt the rules that choose one. Phases.antt and
-- Timeline.antt have the timeline, Failure.antt and Service.antt the answer to the client. Laws, Rules,
-- Details, Marks, Chronicle, Agreement and Dates below Diagnosis hold the proofs.
--
-- Runner: the execution of the steps of a run (runner/runner-orchestrator.service.ts, with
-- runner/variable-store.service.ts and the interpolation of runner/http-test-executor.service.ts). What is
-- outside, which are the requests, the clock, the requests for cancellation and the pauses, is a record `Outside` of
-- operations on a state; that time passes in a request and in a pause is the record `Passes`. Variables.antt has the
-- variables and the interpolation, Evaluation.antt the evaluation of a response, Loops.antt the loops of a poll and a
-- wait, Execution.antt the steps, the suites and the category of a failure. Responses, Messages, Passing, Endings and Records
-- hold the proofs. Lifecycle.antt has the execution of a run from its claim to its end, `executeInternal`, on the
-- state service; what the files, the containers, the health check and the suites come to is the record `Outcomes` of
-- Outcomes.antt. Lifecycle/Verdict.antt is what an execution should make of a run; Safety, Alone, Stages, Marks, Handling, Moves,
-- Phases and Refinement below Lifecycle hold the proofs.
--
-- Comparison: the comparison of a run with an earlier one that passed (test-runs/test-run-comparison.service.ts).
-- The query for the earlier run is a parameter. Diffs.antt has the steps, Revisions.antt the suites and images and
-- Service.antt the service; Images.antt and Unchanged.antt hold the proofs.
--
-- Bounds and fuel
--
-- Dates are natural numbers of milliseconds. The loop of `sortNodes` has as fuel the number of the flow's steps, as
-- each turn puts one of them in order. The text of a number has as fuel one more than the number, and
-- each digit divides by ten. A poll has as fuel two turns more than its timeout has milliseconds, and a pause
-- one more than its length, since a turn takes a millisecond at least. Numbers that a user enters are whole or not finite; fractions
-- are not modelled. `localeCompare`, the order of `sort()` and `toUpperCase` are parameters.
--
-- Not modelled
--
-- Of the orchestrator, the containers, the files, the timers that renew the lease and look for a cancellation, the logs, the
-- reports and the writing of the metadata are not modelled; the masking of secrets is a parameter. A message that the database gives is
-- a fixed text. A plan is one that
-- the compiler makes, without a step of type `sequence`. Dry runs, artifacts, secrets and
-- the import of suites are parts of their own, which no file here is about. The creation of a run, the parsing
-- and printing of YAML, the order of its keys, and `compileRawYaml` are not modelled either. Controllers, DTOs, logging,
-- metrics, the websocket gateway, containers and the frontend are input and output around this logic.
-- Two queries that a method awaits together are one reading of the tables. A property that a
-- JavaScript object inherits is not a property here.
pub mod Common
pub mod Runs
pub mod Access
pub mod Suites
pub mod Assertions
pub mod Subscriptions
pub mod Queue
pub mod Diagnosis
pub mod Runner
pub mod Comparison
