-- ===== src/Lib.antt =====
-- process-wrapper: an init process for containers that starts the commands of a configuration, probes
-- their health, restarts those that fail, and passes signals on. Paths below are those of the
-- repository.
--
-- The parts, and the files that model them:
--
-- Prelude, Prelude/*: tests on numbers, lists, strings as lists of bytes, maps with string keys as
-- association lists, integers, decimal numerals, floating-point numbers; what the sources use of Go's
-- language and library.
-- Clock: `time.Time` as nanoseconds since the zero time, `time.Duration` as an integer.
-- Command: the configuration (`Command`, `Probe`, `Hook` of pkg/process/process.go, hook.go and the
-- probe_*.go files), `ProbesUndefined`, `String`.
-- Env, Env/*: `parseEnv`, `removeQuotes`, `MergeEnvs`, `ConvertEnvs` (pkg/process/process.go).
-- Maps, Maps/*: the status map of `State` without its order, as a quotient of the association lists:
-- what a loop over a Go map computes in whatever order it meets the entries.
-- State, State/*: the shared `State` of pkg/process/health.go, a record, and its methods as functions
-- on it, each of which runs under the lock.
-- Action, Action/*: the writes of that state and the effects outside of it as values. What a goroutine
-- does is a list of actions; what several do is an interleaving of their lists, and `perform_all` is
-- its effect on the state.
-- Schedule, Schedule/*: the commands that `NewSchedule` starts (pkg/process/process.go), the scrape
-- targets of `PromTargets` (pkg/config/config.go) and `GetReadyPromTargets` (pkg/process/health.go).
-- Outside: what the probes ask of the outside.
-- Probes, Probes/*: the `Run` methods of pkg/process/probe_*.go, and the run of all probes of a
-- command, as `ProbeRunner` calls them.
-- Hooks, Hooks/*: `Hook.Run` and what it calls (pkg/process/hook.go).
-- Runner, Runner/*: `HealthChecker`, `ProbeRunner`, `PostStartHookRunner` (pkg/process/process.go), a
-- function from the rounds that the loop meets to its actions and the way it ends.
-- Lifecycle, Lifecycle/*: `Run` and `AcquireSharedLock` (pkg/process/process.go), a machine with one
-- move for each read or write of shared data. A schedule is a list of ticks, each a move of `Run` or
-- an action of another goroutine. The deferred recursive calls of `Run` are a counter.
-- Signals, Signals/*: `Notify`, `TerminateProcess`, `ProcessKiller` (pkg/signals/signals.go).
-- Acquire, Acquire/*: `CreateLease` and `AcquireSharedLock` (pkg/process/process.go) over the answers of
-- the shared lock server; Acquire/Server puts the two ends together, Acquire/Moves compares
-- the loop with the machine of Lifecycle, and Acquire/Sharing follows the pointer to the lock probe that
-- `NewSchedule` copies to the replicas of a command, over a store of lock probes by address.
-- Endpoints, Endpoints/*: the handlers of `HealthEndpoint`, `CreateReadinessFile` and
-- `PromMergeHandler` (pkg/process/health.go).
-- Registry, Registry/*: the metrics that `init` of pkg/metrics/metrics.go registers, and the updates of
-- them in pkg/process.
-- Stats, Stats/*: `NewProcStats` and `Stat` (pkg/stat/stat.go) and `GetStats` with the memory limit
-- (pkg/process/process_stats.go), over the floating-point numbers.
-- Pods, Pods/*: `NewPodStatus`, `ReadStatusController` and `ReadStatus`
-- (pkg/process/container_state.go), which cancels the context of the commands when a container of the
-- pod has completed.
-- Preemption, Preemption/*: `WaitPreemptionState`, `PreemptionChecker`, `GetMetadataClient`,
-- `GetMetadataRequest` and `DrainEnvoyListeners` (pkg/process/health.go).
-- Labels, Labels/*: `GetExtraFileLabels` and `MergeLabels` (pkg/metrics/metrics.go).
-- Events, Events/*: `NewMetricsServer`, `GetExtraJSONLabels` and the `Push` methods
-- (pkg/metrics/metrics.go), and `HealthRun` (pkg/process/health.go).
-- Output, Output/*: `ProcessOutput` (pkg/process/process.go).
-- Config, Config/*: the loaders of pkg/config (file.go, json_env.go, string.go) and the durations of
-- pkg/process/duration.go.
-- Main, Main/*: main.go: the flags, `main`, `WaitReadiness`, `SharedLockServer`, and
-- `StartProcessWrapper` up to its wait.
-- Wrapper, Wrapper/*: the end of `StartProcessWrapper` (main.go), `NewSchedule`, and the goroutines of
-- all commands (pkg/process/process.go) over one state and one wait group. A run is a list of turns; each
-- is a move of one command, a step of `NewSchedule`, a step of the main goroutine, or an action of
-- another goroutine. Wrapper/Recovery follows `Run` among the actions of the others, Wrapper/Memory puts `GetStats` and
-- `Run` together, and Wrapper/Restarting, Wrapper/Signalled and Wrapper/Requested
-- put the health checker, the signal handler and `ReadStatusController` beside the whole wrapper, which
-- Wrapper/Cancelled follows after the context of the commands is done (os/exec does not start a command
-- whose context is done).
-- Http: what the handlers use of a response writer.
-- Lease, Lease/*: the shared lock server: pkg/lease/handlers/lease.go and pkg/lease/lock/lock.go.
-- Sample: data of the tests, which stand in modules named Examples.
--
-- How they interact: `Run` and the signal handler write the state that the health checkers, `Run`
-- itself and the endpoints read. The health checker sets the kill flag and sends SIGKILL, `Run` finds
-- the flag when the command has ended and calls itself again; the signal handler sets the shutdown flag,
-- which ends that. The lock probe is a client of the shared lock server. The
-- main goroutine waits until the counter of the wait group is zero, which counts the pending calls of
-- `Run` of all commands. `process-wrapper -wait` is another process, which meets the wrapper at its
-- readiness file.
--
-- Parameters: the environment, files, the network, child processes, data bases, etcd, the clock and
-- the JSON codec are arguments. Laws are assumed of some arguments: `IsTransactional`, that a
-- transaction of etcd whose condition holds found the key free and bound it to its lease, and
-- `IsKeeping`, that granting and renewing leases leaves bound keys alone, which a small store in
-- Lease/OneKey has; `IsFloat`, that a difference of
-- floating-point numbers is negative if the first is the smaller one, and that a decimal numeral is read
-- as the number closest to it; `IsPrometheus`, that the Prometheus client panics at an update with a value for each
-- label if one of the values is not a text in UTF-8, and else only if it adds a negative number to a counter (both hold of the numbers with
-- two decimal places of Sample/Hundredths); that the package prommerge collects nothing where it is given no target;
-- and `AreFaithful`, that the codecs read back what they write (in Config/Durations only). A map that Go iterates in any order is an association list in
-- any order.
--
-- Bounds: only `decimal` runs on fuel, the number and one more, and a number has no more digits than
-- that. All other loops are recursions on a list or on a number. A loop without end is a function of
-- the rounds that it meets. The integers of the configuration are taken without a bound, since nothing
-- is added to them; the counters of a health checker are natural numbers, and 2^63 failures do not
-- occur. Lengths of time that are rounded by a floating-point number (of more than 2^24 seconds) are
-- cut to whole seconds here.
--
-- Not modelled: logging, the inside of the Prometheus client, the profiler, the usage
-- text, the health endpoint of the lock server and the start of HTTP servers: input and output, or calls of libraries. In the
-- machine of Lifecycle a granted lease is an input of a move, and the sleeps of the lock loop are left
-- out; the loop in full is that of Acquire, and Acquire/Moves compares the two.
pub mod Prelude
pub mod Clock
pub mod Env
pub mod State
pub mod Action
pub mod Command
pub mod Schedule
pub mod Outside
pub mod Probes
pub mod Hooks
pub mod Runner
pub mod Lifecycle
pub mod Signals
pub mod Http
pub mod Lease
pub mod Registry
pub mod Stats
pub mod Maps
pub mod Pods
pub mod Endpoints
pub mod Labels
pub mod Output
pub mod Events
pub mod Config
pub mod Main
pub mod Wrapper
pub mod Preemption
pub mod Acquire
mod Sample
