-- ===== src/Lib.antt =====
-- gosupervisor: a process supervisor. It starts programs, watches them once a second, restarts those
-- that end, tells event listeners, webhooks and browsers what happens, and lets FastCGI programs
-- share one listening socket.
--
-- The parts, how they interact, and the files that model them:
-- * `Process` (internal/process/process.go): one managed program. The fields of the struct that the
--   modelled methods read are those of the record `Process`, in the source's words. Each method is
--   cut where it holds the lock `p.mu`, and each section is one function: `start_check`,
--   the wait `start_wait`, `start_mark`, `start_recheck`, `start_commit` and `start_health_check` of `Start`; `stop_begin`
--   and `stop_finish` of `Stop`; `monitor_cancel` and `monitor_exit` of `monitor`; `restart_begin`
--   and `restart_recheck` of `Restart`. `start`, `stop`, `monitor` and `restart` compose them for a
--   call that nothing else interrupts but the `monitor` of the child, in `stop` while it waits for
--   the end and in `start` at `<-monDone`. `start_cancel` is `startCancel`, which also kills a child
--   that still runs, since it was started by `exec.CommandContext`. What a section tells the outside
--   is a list of `Effect`s in its order. Policy holds the restart window and the
--   exit code policy, Signal the method `Signal`, Health a tick of `runHealthCheck`, Webhook
--   `sendWebhook`, whose durations have Go's 64 bits.
-- * `Monitor` (internal/process/monitor.go): `handle_exited` is the locked section of
--   `handleExitedProcess`, `wake` and `restart_failed` those of its restart goroutine, which
--   `restart_goroutine` composes with `start`; `check_running` is `checkRunningProcess`, and
--   `check_process` the dispatch of a tick.
-- * `Interleaving` lets the sections of any callers follow one another in any order on one process,
--   where `Process` and `Monitor` compose those of one call.
-- * `Manager` (internal/process/process.go): the map of processes of `ProcessManager`, and
--   `CompareConfigs`, by which a reload finds what has changed. `reflect.DeepEqual` is a parameter.
--   Its child Sort is `topologicalSort` with `sortByPriority`, Batch is `StartAll` and `StopAll`, and
--   Group is `topologicalSortForGroup`, `StartGroup`, `StopGroup` and `RestartGroup`, and Saved is
--   `SaveState` and `RestoreState`, with package json as a parameter. Reload is
--   `reloadConfiguration` of cmd/gosupervisor/main.go from the new configurations on, which calls
--   `CompareConfigs`, the sort, `Stop`, `AddProcess` and `Start`. Batch, Group and Reload compose
--   `start`, `stop` and `restart` of `Process`; the order of a Go map is that of a list, and how
--   names of one priority are ordered is a parameter where a theorem does not depend on it.
-- * `Control` (internal/socket/socket.go): the control socket. `handle_command` reads a line and calls
--   the functions of `Process` and `Manager`, and `handle_conn` is the loop over the lines of a
--   connection. Batches holds the commands for all processes and groups, with the
--   read lock of the manager that `restart-all` holds and the write lock that `Stop` asks for. The record `World` gives
--   what the calls meet and the texts that package fmt makes of numbers and errors.
-- * `Ring` (internal/process/ringbuffer.go), and over it `Events` (event.go, resource_history.go of
--   the same folder), where `record_event` is `RecordEvent` with its two callbacks.
-- * `Listener` (internal/eventlistener): Queue is the bounded queue, Wire the subscriptions and the
--   wire format, Result `readResult`, Protocol the loop that talks to the child, as a machine driven
--   by inputs, so that all orders of pushes and answers are lists of inputs; Manager is `NewManager`
--   and `EmitEvent`, which feed the queues from the second callback of `RecordEvent`, and its child
--   Reload is `Start`, `Stop` and `Reload`, over the states of the listeners.
-- * `Broker` (internal/web/sse_broker.go): the broadcast of events to the browsers, which is the first
--   callback of `RecordEvent`.
-- * `Fcgi` (internal/fcgi/socket.go): the shared socket, which `Start` attaches to and which `Stop`
--   and the monitor release, and the quoting of the wrapped command lines.
-- * `Limiter` (internal/web/ratelimit.go): the token bucket of each client of the web interface.
--   Its child Budget runs requests, time and `cleanup` ticks in any order.
-- * `Config` (internal/config/config.go): what is done with a configuration once it is read. Cycle is
--   `findDependencyCycle`, Validate `ValidateConfig`, whose warnings are a data type, and Expand
--   `expandTemplate` and `ExpandProgramConfig`, with the functions of packages strings and fmt that
--   they call. The dependencies that pass Validate are what the sort of `Manager` is given.
-- * `Logger` (internal/logger/logger.go): Disk has the calls of package os on names and files,
--   Backups `cleanupBackups`, Streams `Write` of a stream and its rotation, Writers
--   `GetProcessLogWriters` and `CloseProcessLog`. Compression and file times are given by the record
--   `Env` of each rotation; a rotation follows its write at once, where the source starts a goroutine.
-- * `Web` (internal/web/web.go): the requests that change processes. `serve` is the handler that
--   `Start` makes: the rate limit, CORS, the credentials and, in Routes, the mux, whose handlers call
--   `start`, `stop`, `restart` and `signal` of `Process` and the groups of `Manager`.
-- * `Prelude` holds what the parts share: Boolean tests, lists, integers, byte texts, decimal
--   numbers and lines. `Examples` holds concrete runs.
--
-- Numbers: counters, times (nanoseconds) and process numbers are unbounded naturals, where the
-- source has 64 bits; configured numbers that may be negative are integers, and each comparison
-- with them is as in the source; the durations of the webhook have Go's 64 bits. `float64` tokens
-- are exact. A text is its list of bytes. Loops are structural recursions over the list, the count
-- or the inputs they consume, but for four that run on fuel. The two loops of Kahn's algorithm, `kahn`
-- and `group_kahn`, have as much as there are names, which is enough, since each round takes a name
-- that is not in the result (`kahn_ends`, `group_kahn_ends`). The search `dfs` has one more than there
-- are programs, since each nested call takes a program that is not on its path (`dfs_lem`). The loop
-- of `expandTemplate` has the length of the text, since each round takes a marker away
-- (`expand_template_ends`).
--
-- Parameters: the operating system under the shared socket is the record `Os`; what a call of
-- `Start` or `Stop` meets outside (the time, whether the user is known, the socket attached, the
-- child forked, when and how the child ends) are the records `Launch` and `Halt`, which `Env` gives for each
-- name; package json is the record `Json`, and the file system's success the record `Calls`.
--
-- Not modelled: the reading of configuration files and their defaults; of the logger, the system log
-- and the rotation of all files on demand; of the web server, the pages and lists that only read, the
-- texts of the answers and the listener; the metrics, which only export numbers; the opening of the
-- control socket and, but for the reload, the two commands; of `Start`, the construction of the
-- command (environment, user ids, hooks, limits); of the event listeners, their child processes. The
-- waiting between two sections of different callers, on channels and timers, is not modelled:
-- `Interleaving` allows every order, also those that a wait rules out. What a cancelled context does
-- to a child that was forked but not yet committed is not modelled either, nor the exit of a child
-- that not even SIGKILL ends. The batches, groups, reloads, commands and requests are
-- calls that nothing else interrupts.
pub mod Prelude
pub mod Ring
pub mod Events
pub mod Limiter
pub mod Logger
pub mod Fcgi
pub mod Listener
pub mod Process
pub mod Monitor
pub mod Control
pub mod Config
pub mod Manager
pub mod Broker
pub mod Interleaving
pub mod Examples
pub mod Web
