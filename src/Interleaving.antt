-- ===== src/Interleaving.antt =====
-- internal/process: several callers of `Start`, `Stop` and `Restart`, `monitor`, the health check and
-- the process monitor, on one process. Each holds `p.mu` for one section at a time, so that what can
-- happen to the process is a list of sections; any list is allowed here.
pub mod Children
pub mod Losses
use gosupervisor.Prelude.{
  ℕ, ◌+◌, ℤ, Bool, true, false, List, [], ◌∷◌, Option, none, some, if◌then◌else◌,
}
use gosupervisor.Process.{starting, state_eq, Process, Error}
use gosupervisor.Process.Start.{
  start_check, start_mark, start_fail, start_recheck, start_commit, start_health_check,
}
use gosupervisor.Process.Stop.{stop_begin, stop_finish}
use gosupervisor.Process.Exit.{monitor_cancel, monitor_exit, monitor_end}
use gosupervisor.Process.Restart.{restart_begin}
use gosupervisor.Process.Health.{health_tick}
use gosupervisor.Monitor.{handle_exited, wake, restart_failed, check_running, health_restart_failed}

pub data Section : Type 0 where
  check_start recheck_start begin_health begin_stop cancel_monitor end_monitor : Section
  begin_restart wake_up fail_restart fail_health_restart : Section
  mark_start : (now : ℕ) → (user_ok : Bool) → Section
  fail_start : Error → Section
  commit_start : (now pid : ℕ) → Section
  finish_stop : (now : ℕ) → Section
  exit_monitor : (now : ℕ) → (code : ℤ) → Section
  tick_health : (ok : Bool) → Section
  handle_exit look : (now : ℕ) → Section

unfoldable pub apply : Section → Process → Process
apply check_start p = (start_check p).0
apply recheck_start p = (start_recheck p).0
apply begin_health p = start_health_check p
apply begin_stop p = (stop_begin p).0
apply cancel_monitor p = monitor_cancel p
apply end_monitor p = monitor_end p
apply begin_restart p = (restart_begin p).0
apply wake_up p = (wake p).0
apply fail_restart p = (restart_failed p).0
apply fail_health_restart p = (health_restart_failed p).0
apply (mark_start now user_ok) p = (start_mark now user_ok p).0
apply (fail_start e) p = (start_fail e p).0
apply (commit_start now pid) p = (start_commit now pid p).0
apply (finish_stop now) p = (stop_finish now p).0
apply (exit_monitor now code) p = (monitor_exit now code p).0
apply (tick_health ok) p = (health_tick ok p).0
apply (handle_exit now) p = (handle_exited now p).0
apply (look now) p = (check_running now p).0

unfoldable pub apply_all : List Section → Process → Process
unfolding apply
apply_all [] p = p
apply_all (s ∷ ss) p = apply_all ss (apply s p)
