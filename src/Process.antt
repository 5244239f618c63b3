-- ===== src/Process.antt =====
-- internal/process/process.go: a managed process. Each method is cut where it holds the lock
-- `p.mu`: a section under the lock is one function on `Process`, and what happens between two
-- sections is an argument of the next one. The children model the methods and prove their laws.
pub mod Policy
pub mod Start
pub mod Stop
pub mod Exit
pub mod Signal
pub mod Health
pub mod Restart
pub mod Webhook
use gosupervisor.Prelude.{
  ℕ, ℤ, pos, Bool, true, false, ◌||◌, if◌then◌else◌, List, [], ◌∷◌, Option, none, some, Text, codes,
  lookup,
}
use gosupervisor.Events.{EventType}

pub data ProcessState : Type 0 where
  stopped starting running stopping exited fatal : ProcessState

unfoldable pub state_eq : ProcessState → ProcessState → Bool
state_eq stopped stopped = true
state_eq starting starting = true
state_eq running running = true
state_eq stopping stopping = true
state_eq exited exited = true
state_eq fatal fatal = true
state_eq _ _ = false

-- A context that can be cancelled, as `startCtx` and `healthCheckCtx`; `unset` is nil.
pub data Ctx : Type 0 where
  unset live cancelled : Ctx

-- `if p.cancel != nil { p.cancel() }`
unfoldable pub cancel : Ctx → Ctx
cancel unset = unset
cancel _ = cancelled

-- A channel that is only ever closed; `nil` where there is none.
pub data Chan : Type 0 where
  nil waiting closed : Chan

-- What the modelled methods read of `config.ProgramConfig`.
pub record ProgramConfig : Type 0 where
  pub name : Text
  pub auto_start : Bool
  pub auto_restart : Bool
  pub start_secs : ℤ
  pub start_retries : ℤ
  pub stop_signal : Text
  pub depends_on : List Text
  pub group : Text
  pub priority : ℤ
  pub health_check_url : Text
  pub health_check_unhealthy_threshold : ℤ
  pub health_check_restart : Bool
  pub restart_max_count : ℤ
  pub restart_window_secs : ℤ
  pub restart_codes : List ℤ
  pub no_restart_codes : List ℤ
  pub kills_as_group : Bool
  pub stop_as_group : Bool
  pub socket : Text
  pub exit_codes : List ℤ

-- Times are nanoseconds. `cmd` says whether `p.Cmd` is set.
pub record Process : Type 0 where
  pub name : Text
  pub config : ProgramConfig
  pub cmd : Bool
  pub state : ProcessState
  pub pid : ℕ
  pub start_time : ℕ
  pub stop_time : ℕ
  pub exit_code : ℤ
  pub start_retries : ℕ
  pub restart_count : ℕ
  pub last_restart : ℕ
  pub healthy : Bool
  pub resource_healthy : Bool
  pub group : Text
  pub restart_timestamps : List ℕ
  pub health_check_failures : ℕ
  pub health_check_restart_fired : Bool
  pub health_check_ctx : Ctx
  pub wait_ch : Chan
  pub monitor_done : Chan
  pub start_ctx : Ctx

-- What a section tells the outside, in its order.
pub data Effect : Type 0 where
  webhook : ProcessState → (pid : ℕ) → (exit_code : ℤ) → Effect
  event : EventType → (pid : ℕ) → (exit_code : ℤ) → Effect
  signal_process signal_group : (pid signal : ℕ) → Effect
  kill : (pid : ℕ) → Effect
  -- `if sm.Detach() { sm.Close() }` on the shared socket, if the manager has it.
  release_socket : Effect
  -- `sm.Detach()` alone.
  detach_socket : Effect
  -- `OnHealthCheckFailure`, if it is set.
  report_failure : Effect

pub data Error : Type 0 where
  already_running already_starting no_user no_socket fork_failed stopped_meanwhile : Error
  is_fatal not_running signal_failed : Error

-- `AddProcess`: a new process is STOPPED, and all else is its zero value.
unfoldable pub new_process : ProgramConfig → Process
new_process cfg = record {
  name = cfg.name;
  config = cfg;
  cmd = false;
  state = stopped;
  pid = 0;
  start_time = 0;
  stop_time = 0;
  exit_code = pos 0;
  start_retries = 0;
  restart_count = 0;
  last_restart = 0;
  healthy = false;
  resource_healthy = false;
  group = cfg.group;
  restart_timestamps = [];
  health_check_failures = 0;
  health_check_restart_fired = false;
  health_check_ctx = unset;
  wait_ch = nil;
  monitor_done = nil;
  start_ctx = unset;
}

abbrev pub has_wait_ch : Chan → Bool
has_wait_ch nil = false
has_wait_ch _ = true

-- Whether `monitor` waits for a child of the process, whose end it has not yet recorded.
unfoldable pub has_child : Process → Bool
has_child p = elim p.monitor_done [ waiting ↦ has_wait_ch p.wait_ch | _ ↦ false ]

-- `p.startCancel()`: the child was started by `exec.CommandContext` under this context, so that it
-- is killed where it still runs.
unfoldable pub start_cancel : Process → Process × List Effect
unfolding has_child
start_cancel p = (
  record p { start_ctx = cancel p.start_ctx },
  elim p.start_ctx [ live ↦ if has_child p then kill p.pid ∷ [] else [] | _ ↦ [] ],
)

-- The signal numbers of Linux.
abbrev pub stop_signals : List (Text × ℕ)
stop_signals =
    (codes "SIGTERM", 15)
    ∷ (codes "SIGQUIT", 3)
    ∷ (codes "SIGINT", 2)
    ∷ (codes "SIGHUP", 1)
    ∷ (codes "SIGUSR1", 10)
    ∷ (codes "SIGUSR2", 12)
    ∷ (codes "SIGKILL", 9)
    ∷ []

abbrev pub sigterm : ℕ
sigterm = 15

abbrev pub sigkill : ℕ
sigkill = 9

unfoldable pub parse_signal : Text → Option ℕ
parse_signal name = lookup name stop_signals

unfoldable pub signals_group : ProgramConfig → Bool
signals_group cfg = cfg.stop_as_group || cfg.kills_as_group
