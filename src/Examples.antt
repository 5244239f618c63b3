-- ===== src/Examples.antt =====
-- Concrete runs: test data, and the theorems of the other modules at it.
pub mod Buffers
pub mod Configs
pub mod Logs
pub mod Requests
pub mod Sockets
pub mod Listeners
pub mod Processes
pub mod Monitors
pub mod Orders
pub mod Managers
pub mod Sorts
pub mod Saved
pub mod Commands
pub mod Brokers
use gosupervisor.Prelude.{ℕ, ℤ, pos, negsuc, true, false, List, [], ◌∷◌, none, some, Text, codes}
use gosupervisor.Events.{EventType, Event}
use gosupervisor.Process.{
  ProgramConfig, Process, stopped, running, exited, waiting, closed, live, unset,
}
use gosupervisor.Process.Exit.{clean, exit_error}
use gosupervisor.Process.Start.{Launch}
use gosupervisor.Process.Stop.{Halt, in_time}

abbrev pub exit_event : ℕ → Event
exit_event pid = record {
  timestamp = 0;
  name = codes "cat";
  typ = EventType.exit;
  pid = pid;
  exit_code = pos 1;
  message = [];
}

abbrev pub start_event : ℕ → Event
start_event pid = record {
  timestamp = 0;
  name = codes "cat";
  typ = EventType.start;
  pid = pid;
  exit_code = pos 0;
  message = [];
}

-- Restarts automatically, at most twice in a row, if a restart is allowed at all.
abbrev pub sample_config : ProgramConfig
sample_config = record {
  name = codes "cat";
  auto_start = true;
  auto_restart = true;
  start_secs = pos 1;
  start_retries = pos 2;
  stop_signal = codes "SIGINT";
  depends_on = [];
  group = [];
  priority = pos 999;
  health_check_url = codes "tcp://localhost:80";
  health_check_unhealthy_threshold = pos 2;
  health_check_restart = true;
  restart_max_count = pos 0;
  restart_window_secs = pos 60;
  restart_codes = [];
  no_restart_codes = [];
  kills_as_group = false;
  stop_as_group = false;
  socket = [];
  exit_codes = pos 0 ∷ [];
}

abbrev pub running_process : Process
running_process = record {
  name = codes "cat";
  config = sample_config;
  cmd = true;
  state = running;
  pid = 42;
  start_time = 5;
  stop_time = 0;
  exit_code = pos 0;
  start_retries = 1;
  restart_count = 0;
  last_restart = 5;
  healthy = false;
  resource_healthy = false;
  group = [];
  restart_timestamps = 5 ∷ [];
  health_check_failures = 0;
  health_check_restart_fired = false;
  health_check_ctx = unset;
  wait_ch = waiting;
  monitor_done = waiting;
  start_ctx = live;
}

abbrev pub crashed_process : Process
crashed_process = record running_process {
  state = exited;
  exit_code = pos 1;
  wait_ch = waiting;
  monitor_done = closed;
}

abbrev pub good_launch : Launch
good_launch = record {
  now = 9;
  user_ok = true;
  socket_ok = true;
  child = some 43;
  old_child = clean;
}

abbrev pub quick_halt : Halt
quick_halt = record { now = 7; death = in_time; result = exit_error (pos 1) }
