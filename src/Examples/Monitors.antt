-- ===== src/Examples/Monitors.antt =====
-- Runs of the monitor.
use gosupervisor.Prelude.{
  is_positive, ℕ, suc, ◌+◌, ◌≡◌, refl, ◌⊎◌, ◌↔◌, pos, true, false, [], ◌∷◌, arith, codes, text_eq,
}
use gosupervisor.Process.{has_child, fatal, state_eq, Process, ProgramConfig}
use gosupervisor.Process.Exit.{exit_error, exit_code_of}
use gosupervisor.Fcgi.{new_socket_manager}
use gosupervisor.Process.Policy.{code_in}
use gosupervisor.Process.Start.{start}
use gosupervisor.Process.Start.Ready.{IsUp}
use gosupervisor.Fcgi.Counting.{attach_times}
use gosupervisor.Monitor.{check_running, Cycle, crash_cycles}
use gosupervisor.Monitor.Retries.{crash_cycles-gives_up}
use gosupervisor.Monitor.Running.{check_running_fresh}
use gosupervisor.Monitor.Sockets.{ticks, ticks-close_shared}
use gosupervisor.Examples.{sample_config, running_process, crashed_process, good_launch}
use gosupervisor.Examples.Sockets.{sample_os, open_socket, open_socket-IsOpen, args}

-- The process comes up and crashes at once.
abbrev crash_at : ℕ → Cycle
crash_at t = record { now = t; launch = good_launch; ended = t + 2; result = exit_error (pos 1) }

crash_cycles-gives_up_example :
    (crash_cycles (crash_at 10 ∷ crash_at 20 ∷ crash_at 30 ∷ []) crashed_process).state ≡ fatal
crash_cycles-gives_up_example =
    crash_cycles-gives_up 2 (crash_at 10 ∷ crash_at 20 ∷ crash_at 30 ∷ []) crashed_process refl refl
      refl (unfold has_child in refl) (unfold code_in in refl) refl
      (unfold code_in exit_code_of in (refl, (refl, (refl, tt)))) (omega arith) (omega arith)

asks : (check_running 6 running_process).1 ≡ true
unfolding check_running state_eq text_eq
asks = refl

abbrev settled_config : ProgramConfig
settled_config = record sample_config { start_secs = pos 0 }

abbrev stopped_process : Process
stopped_process = record crashed_process { config = settled_config }

abbrev started_process : Process
started_process = (start good_launch stopped_process).0

is_up : IsUp good_launch 43 stopped_process started_process
unfolding start state_eq text_eq
is_up = record {
  is_running = refl;
  has_cmd = refl;
  new_pid = refl;
  since = refl;
  one_more_try = refl;
  counted = refl;
  not_yet_healthy = (refl, refl);
  same_flag = refl;
  logged = refl;
}

check_running_fresh_example :
    (((check_running 10 started_process).1 ≡ true) ↔ (
      (stopped_process.health_check_restart_fired ≡ false)
      × (started_process.config.health_check_restart ≡ true)
      × (text_eq started_process.config.health_check_url [] ≡ false)))
    × (started_process.health_check_failures ≡ 0)
    × ((is_positive started_process.config.start_secs ≡ true)
        ⊎ ((check_running 10 started_process).0.start_retries ≡ stopped_process.start_retries + 1))
check_running_fresh_example =
    check_running_fresh good_launch 43 10 stopped_process started_process is_up

abbrev socket_process : Process
socket_process = record crashed_process {
  config = record sample_config { auto_restart = false; socket = codes "unix:///run/a.sock" };
}

ticks-close_shared_example :
    let (q, after) =
      ticks (1 ∷ 2 ∷ []) socket_process (attach_times sample_os (suc 1) args open_socket) in
    (q ≡ socket_process) × (after.closed ≡ true) × (after.listening ≡ false)
ticks-close_shared_example =
    ticks-close_shared sample_os 1 args (1 ∷ 2 ∷ []) socket_process open_socket refl refl
      (unfold text_eq in refl) open_socket-IsOpen (unfold new_socket_manager in refl) refl
