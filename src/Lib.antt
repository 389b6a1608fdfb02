-- ===== src/Lib.antt =====
-- FlowRoutine: a load generator whose engine sends the requests of a scenario at a configured pace,
-- and which can split a run among several worker machines.
--
-- A start request becomes a configuration, which the engine checks and compiles (`Config`,
-- `Validate`, `LoadProfile`); a distributed run first splits it among its workers (`Shard`), who get
-- their parts as plans (`Protocol`, `Coordinator`) and run them as the coordinator asks (`Worker`).
--
--   Config        internal/engine/config.go and profile.go: the types of a configuration.
--   LoadProfile   internal/engine/profile.go: `compileLoadProfile` is `compile_load_profile`.
--   Validate      internal/engine/config.go: `compileConfig`, as far as it is about numbers and the
--                 profile, is `compile_config`; `ValidateConfig` is `validate_config`.
--   RateLimiter   internal/engine/rate_limiter.go: `newRateLimiter`, the loop of `Run` (`tick`) and
--                 `Wait`.
--   Shard         internal/distributed/shard.go: `ShardConfigs` is `shard_configs`.
--   Plan          internal/engine/execution_plan.go: the compiled steps and, in Plan.Graph, the searches
--                 over their graph. A search over n steps is given n + 2 rounds of fuel, which is
--                 enough: a round takes one step off the queue and no step is put there
--                 twice. Plan.Cycles is `executionCycleNode`, with a round for each step;
--                 Plan.Forward is `forwardUntil`, with a round for each edge, since a step can
--                 be in its queue more than once; Plan.Dominators is `executionDominators`, with
--                 a round for each bit, since a round that changes a row clears a bit.
--                 Plan.Targets, Plan.Scenario and Plan.Instructions: the compilation of the
--                 steps; Plan.Loops `validateBoundedExecutionLoops`, Plan.Branches
--                 `validateStructuredBranches`, Plan.Requests `attachPlannedAssertions` and
--                 `validatePlannedTemplates`; Plan.Compile: `compileExecutionPlan`. Where a
--                 loop runs out of fuel it answers with the error `unfinished`.
--                 Plan.Hash and Plan.Routes: internal/engine/execution_runtime.go, the choice of a route
--                 at a branch; Plan.Iteration: `runPlannedIteration`, by recursion on the transitions that
--                 are left, over a `Machine` that stands for `runStep` and the variables.
--   BranchStats   internal/engine/branch_stats.go: the counters of the routes. Each atomic addition is a
--                 step (`recordRequest` is `record_total` and later `record_outcome`), and so is each
--                 load of `BranchRouteSnapshots`; any additions may come between two loads.
--   Protocol      internal/distributed/protocol.go: `NewPlanConfig` is `new_plan_config`, `EngineConfig`
--                 is `engine_config`, `validate` is `validate_plan`.
--   Coordinator   internal/distributed/coordinator.go: `worker_plans` is the part of `Start` that
--                 validates a plan and makes one for each worker.
--   Worker        internal/distributed/worker.go: each part of a handler or task that holds the lock is
--                 one function (`handlePrepare` is `handle_prepare`, the two parts of `handleStop` are
--                 `begin_stop` and `end_stop`, those of `runScheduled` `claim_run` and `finish_run`);
--                 Worker.Steps lets them come in any order. Worker.Dispatch: `ServeHTTP`.
--   Aggregate     internal/distributed/aggregate.go: `Run.Snapshot` after the workers have answered is
--                 `take_snapshot`; Aggregate.Consistent is `validateSnapshotResponse`,
--                 Aggregate.Monotonic is `validateMonotonicSnapshot`.
--
-- Numbers: Go's `int`, `int64` and durations are unbounded integers where they may be negative; the one
-- test against overflow that the code makes, of the sum of the stage durations, is in the model. Sums of `uint64` wrap at 2^64.
-- Errors are values of a data type with a constructor for each message.
--
-- Not modelled: the HTTP client, the clock, the contexts and goroutines themselves, TLS, JSON and the
-- desktop shell, which only call libraries or the operating system. `compileConfig`'s checks of the
-- URL, the runtime variables and the scenario steps are a parameter, `ScenarioChecks`, and `engine.New`
-- and the digest of a plan are the parameter `Services` of the worker. Also left out:
-- `compilePlannedScenarioSteps`, the scheduler, the latency statistics, the templates, the sums
-- over the snapshots of the workers, the headless runner and the desktop bridge.
pub mod Prelude
pub mod Config
pub mod Plan
pub mod Protocol
pub mod Coordinator
pub mod LoadProfile
pub mod RateLimiter
pub mod Shard
pub mod Validate
pub mod Worker
pub mod BranchStats
pub mod Aggregate
