-- ===== src/Lib.antt =====
-- Flowmind: workflows that people draw as graphs and that workers run.
--
-- An editor (apps/web) and an API (apps/api) build and publish workflows; workers (apps/worker) run
-- their executions step by step, each under a lease in the shared database. The two sides agree
-- through packages/shared-types. This library models the rules of both sides that decide what may
-- run and what runs next.
--
--   Prelude: the names that all files share, Boolean tests, lists, and sets of strings as lists.
--   Text, Json: strings and the `unknown` values of the source. A `Host` stands for what the
--   JavaScript runtime does and the source does not: the text of a number, the number of a text,
--   and whether Date.parse reads a text. Every result holds for each host.
--   Walk: the recursive closures `visit` of the graph code, over a successor function. They recur on
--   fuel; Walk/Collect, Walk/Search, Walk/Cycle and Walk/Descend show that one more than the number
--   of the keys that a walk can meet is enough, and each caller gives at least that much.
--   GraphValidation: packages/shared-types/src/graph-validation.ts, the editor's and the API's check
--   of a graph. The parent file has the types and the helpers from `issue` to `adjacencyMap` and
--   `handleForKind`; Rules, Regions and TryCatch have one function for each `validate…` of a step
--   type, and TryCatch also `forEachRegions` and `tryCatchRegions`; Validate has `validateGraphV2`
--   and `graphAvailableStepKeys`. An issue keeps its code, step, edge and handle; its prose and its
--   severity, which is always error, are left out. A function that pushes to a list of issues
--   returns what it pushes.
--   RuntimeGraph: apps/worker/src/engine/graph/graph-validator.ts, and RuntimeGraph/Planner
--   graph-planner.ts beside it: what the worker makes of the same graph. A throw is `none`.
--   Duration: `parseDurationMs` of apps/worker/src/engine/wait-time-parser.ts and the pattern of
--   the editor for the same texts. An amount is a natural number, which a double is up to 2 ^ 53.
--   Approval: packages/shared-types/src/approval.ts.
--   StepConfig: the normal forms of step configurations in packages/shared-types/src/subworkflow.ts
--   and for-each.ts; the size check of subworkflow values is left out.
--   RetryPolicy: apps/worker/src/engine/retry-policy-resolver.ts.
--   Lifecycle: packages/shared-types/src/execution-lifecycle.ts, over strings as in the source.
--   Lease: apps/worker/src/engine/execution-lease.service.ts. A row of the table of executions is a
--   record, and a conditional `updateMany` is one atomic step of the database; the clock is an
--   argument, and all workers read the same one. Metrics are left out.
--   Expression: packages/expression-engine, the templates `{{ path }}` in the texts of a step. The parent
--   is parser.ts without its cache, which Expression/Cache adds; the scan for matches recurs on fuel, for
--   which the length of the text is enough (Expression/Scan). Expression/Resolver is resolver.ts;
--   Expression/Validator is validator.ts and references.ts. They call the parser without the cache.
--   JSON.stringify is an argument, and every result holds for each function in its place.
--   Variables: packages/shared-types/src/workflow-variables.ts, and Variables/Context the store of
--   variables in apps/worker/src/engine/execution-runtime-context.ts and the frames of iterations. The
--   sum of two doubles is an argument too. An operation that throws is an error value, and its caller
--   goes on with the store that it had.
--   TryCatch: `execute` of apps/worker/src/engine/try-catch-execution.service.ts. The run of a region
--   is an argument; `execute` returns the states that it saves and its result, and a later run begins
--   with a saved state. runRegion saves a state after each step of a region; it differs from the
--   state before in its current step only. TryCatch/Reference says what such a step means.
--   TransformStep: packages/shared-types/src/transform-step.ts, the check of a transform step.
--   StepExecutor: apps/worker/src/engine/step-executor.ts and error-classifier.ts, the row of a step. How
--   the handler of the step ends is an argument.
--   LinearRunner: apps/worker/src/engine/workflow-runner.ts, the loop of `run` over the steps of a
--   workflow without a graph, over StepExecutor. The answers of the database, the lease and the
--   handlers during a run stand with each step.
--   GraphRunner: `runGraph` and `skipUnselectedBranches` of the same file, the walk over a graph, on the
--   rows of the steps by their keys. It composes StepExecutor, RuntimeGraph and RuntimeGraph/Planner; the
--   services of for_each, try_catch and execute_workflow steps and the answers of one run are
--   arguments that stand with the steps, and so is the stored form of an output. The walk recurs on
--   fuel, and its result is none where that runs out; one round more than there are steps is enough
--   (GraphRunner/Ends). GraphRunner/Stores says what one round may write, and Rounds, Executed and Visits follow
--   the code of a round through it.
--   ForEach: `execute` of apps/worker/src/engine/for-each-execution.service.ts, the loop over the items
--   with its counters and lists; what an iteration comes to is an argument. ForEach/Body is the inner
--   loop of the same function, one iteration on the rows under its path, on fuel.
--   Subworkflow: apps/worker/src/engine/execute-workflow-execution.service.ts, one call of the service
--   on the row of the step, with the answers of the database; it is a service for GraphRunner.
--   Tests: runs on concrete inputs.
--
-- The modules named Laws, Accepted, Paths, Finally, Acyclic, Skipping, Scan, Parse, Template, Limits,
-- Records, Changes, States, Parts, Kept, Stores, Rounds, Executed, Visits, Led, Reached, Ends, Accounts, Resumed, Inside,
-- Started and Served hold proofs.
--
-- Not modelled: the services that only move data between HTTP, queues and the database, the user
-- interface, and the AI service in Python; of the worker, the handlers of the steps, the steps within a
-- try region, the redaction of outputs before they are stored, and what a recovery copies into the state of
-- a block; the catalog of the expression engine; the snapshot of a context and its read-only views; the
-- address filter of HTTP steps.
-- `parseWaitUntil` only calls the runtime's Date.
mod Prelude
pub mod Walk
pub mod Text
pub mod Json
pub mod Lifecycle
pub mod Duration
pub mod Approval
pub mod GraphValidation
pub mod RuntimeGraph
pub mod RetryPolicy
pub mod Expression
pub mod Variables
pub mod TryCatch
pub mod TransformStep
pub mod StepExecutor
pub mod LinearRunner
pub mod GraphRunner
pub mod ForEach
pub mod Subworkflow
pub mod StepConfig
pub mod Lease
mod Tests
