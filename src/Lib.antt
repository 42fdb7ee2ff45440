-- ===== src/Lib.antt =====
-- PaddleFlow: a platform that runs workflows of machine learning jobs on a Kubernetes cluster. The
-- API server (pkg/apiserver) takes workflows in and keeps runs in a database; the pipeline engine
-- (pkg/pipeline) runs the steps of a workflow as jobs; the job engine (pkg/job) submits jobs to the
-- cluster and mirrors their states in the database; the file system (pkg/fs) mounts storage.
--
-- This library models the pipeline engine: how a workflow is sorted and reduced to the steps that
-- its entry needs, how references between its steps are resolved, and how a run starts its steps,
-- watches their jobs and ends; what the API server does to runs; the part of the job engine that
-- mirrors the cluster; and the table of open handles of the file system, its block cache and the
-- reads through it.
--
-- Schema/Workflow.antt: pkg/common/schema/workflow.go (`WorkflowSource`, `GetDeps`).
-- Schema/Jobs.antt: pkg/common/schema/job.go (`JobStatus`, the states of the cluster).
-- Apiserver/Status.antt: pkg/apiserver/common/status.go (the states of a run).
-- Apiserver/Runs.antt: pkg/apiserver/models/run.go, the table of runs; Runs/Rows and Runs/Pages are
--   about changes and pages of it.
-- Apiserver/Run.antt: pkg/apiserver/controller/run: `GetRunByID`, `StopRun`, `DeleteRun`. Children:
--   how runs are started, resumed and retried (Starting, Retry) and created (Creating, Created), the callbacks
--   of callbacks.go (Events), `ListRun` (Listing), who may do what (Access), and a race (Races). The
--   engine's workflows, the yaml library and the image handler are the record `Engine`; what others
--   do between two statements, where it matters, is the argument `between`.
--   Apiserver/RunExamples.antt: a server with three runs.
-- Pipeline/Topology.antt: `topologicalSort` of pkg/pipeline/workflow.go. A map is an association
--   list, and Go's free choice of the order in which a map is visited is an argument of the sort. Its
--   loop runs on fuel, one unit for each step, which is enough since each round but the last sorts one
--   in. Its children are about one round (Visits), the loop (Rounds), the table of dependencies
--   (Graphs) and the whole (Sorted).
-- Pipeline/RunSteps.antt: `getRunSteps` and `recursiveGetRunSteps`, on fuel for the depth of the
--   calls, of which one more than there are steps is enough (Missing, Walks, Reach).
-- Pipeline/Event.antt, Pipeline/Job.antt: pkg/pipeline/event.go and job.go. `Watch` is a function of
--   the answers to its polls of the database (Job/Watching, Job/Ending).
-- Pipeline/Runtime.antt: pkg/pipeline/run.go. A nil step that the code would read is the result
--   `none`. Children: `isDepsReady` (Deps), the loop of
--   `updateStatus` (Moves) and its outcome (Verdict).
-- Pipeline/Restart.antt: `Restart` of run.go and `SetWorkflowRuntime` of workflow.go.
-- Pipeline/Execute.antt: `Execute` and `Watch` of pkg/pipeline/step.go, as functions between two
--   points at which the goroutine of a step may wait. Execute/Traces joins them with the functions
--   of the run and of the jobs into the relation of all interleavings; a move is what a goroutine does
--   from one such point to the next. The event channel holds the senders that wait for room in it,
--   too. The other children show what every interleaving keeps: Ordering, Growth, Safety and Fresh
--   about the order of steps, Slots, Keeping and Capacity about the slots.
-- Pipeline/Template.antt, Params.antt, Solve.antt: pkg/pipeline/common.go, how the parameters,
--   artifacts, environment and command of a step are checked and their references {{ step.name }} replaced, and
--   `checkSteps` of workflow.go. References lead from step to step, on fuel; Params/Scheduled and
--   Solve/Keeping and Total give the fuel that is enough. The other children: what a reference may name (Sight, Scope),
--   and that checking agrees with replacing (Agreement). The mapping library is the parameter
--   `decode`, and a value that is no text is kept in its printed form.
-- Pipeline/Override.antt: `replaceRunParam` and `checkParams` of workflow.go, by which the user of a
--   run overrides parameters (Override/Replaced).
-- Pipeline/Workflow.antt: `newWorkflowRuntime` of workflow.go with `NewStep` and `updateJob` of step.go;
--   `job.ValidateJob` is the parameter `validate`. Workflow/Fresh is about the runs that it makes.
-- Pipeline/ResultCache.antt: pkg/pipeline/cache.go, `checkCached` of step.go and the table of
--   pkg/apiserver/models/cache.go. Fingerprints of keys and the times of files are given by
--   arguments. Children: what is found (Found) and what keys depend on (Keys).
--   Pipeline/ResultCacheExamples.antt: a step that was done an hour before.
-- Pipeline/GraphExamples.antt, ParamExamples.antt, JobExamples.antt, RunExamples.antt,
--   OverrideExamples.antt and WorkflowExamples.antt: small workflows and runs.
-- Engine/Table.antt: `UpdateJob` and `StopJobByID` of pkg/job/job.go, the columns that they concern;
--   how the database and the cluster answer is an argument.
-- Engine/Sync.antt: pkg/job/controller/job_sync, its handlers, for both kinds of jobs at once where
--   their code is the same, and its worker. Sync/Traces is the relation of all interleavings of
--   events, ends of delays and work; Sync/Stable is about the statuses and Sync/Drain about retries.
--   The queue is a list, and an item with a delay may arrive in any order. Engine/SyncExamples.antt: a
--   late event.
-- Fs/Handle.antt: pkg/fs/client/vfs/handle.go, the table of open handles, whose numbers are 64 bits
--   wide. Fs/Handle/Removal, Refinement and Runs show that it is a map from inode and number to
--   handle. Fs/HandleExamples.antt: three handles.
-- Fs/Disk.antt: pkg/fs/client/cache/disk.go. What the operating system answers is a record `Os` that
--   an operation takes. Fs/Disk/Files, RoundTrip and Cleaning: the files that the operations leave.
-- Fs/Cache.antt: pkg/fs/client/cache/cache.go and memory.go: the store and its keys. Children: the
--   saving of blocks (Fills), `ReadAt` with the file handle of pkg/fs/client/ufs/ufs.go (Reads),
--   `InvalidateCache` (Invalidation, Stale), the parts of a file (Blocks), the keys (Keys). The
--   library gcache is the record `Lru` with its laws, and the hash of the keys is any function.
--   Cache/Traces is the relation of all that readers, writers and goroutines do; Kept, Sound, Through,
--   Moves, Answers, Steady, Forgotten, Deletions, Made and Runs show that what is kept are blocks of the files,
--   and Leaks what an invalidation at a bad time leads to.
-- Fs/Reader.antt: pkg/fs/client/vfs/reader.go, the loop that reads a file by blocks, on fuel for the
--   bytes of the buffer; the reader of blocks is an argument (Reader/Whole), for which Reader/Cached
--   and Reader/Behind put the cache. Fs/CacheExamples.antt and DiskExamples.antt: a file of six bytes.
-- Prelude.antt and its children: Booleans, texts as lists of code points, maps, options, slices,
--   decimal numbers, and path.Clean.
--
-- Parameters and bounds: what the database answers is a record `Db`, with the order in which it
-- gives the rows of a query that asks for none. Whether the check for a cached result or the start of a job succeeds is
-- free in each move, and so is what the polls of a job find, but a job that the cluster has never
-- gets the status cancelled or cached, which only the engine gives. Numbers are natural numbers; the
-- parallelism of a run is one, since `newWorkflowRuntime` makes it positive. A step relation has no
-- bound on its length.
--
-- Not modelled: logging; the branch of `Execute` that resumes a job after a restart of the server
-- stands outside the relation (`Restart` and `SetWorkflowRuntime` are functions); the channel of a job
-- that is closed before a final event; the submission of jobs; the rest of the API server; the
-- writers and the metadata of the file system, and the output of `df`.
pub mod Prelude
pub mod Schema
pub mod Apiserver
pub mod Pipeline
pub mod Engine
pub mod Fs
