-- ===== src/Interleaving/Children.antt =====
-- internal/process: how many children a process can keep.
use gosupervisor.Prelude.{
  ℕ, ◌+◌, ◌≤◌, ◌≡◌, ◌≢◌, true, false, List, [], ◌∷◌, none, some, arith, if◌then◌else◌,
}
use gosupervisor.Process.{starting, state_eq, Process}
use gosupervisor.Process.Start.{
  start_check, start_mark, start_fail, start_recheck, start_commit, start_health_check,
}
use gosupervisor.Process.Stop.{stop_begin, stop_finish}
use gosupervisor.Process.Exit.{monitor_cancel, monitor_exit, monitor_end}
use gosupervisor.Process.Restart.{restart_begin}
use gosupervisor.Process.Health.{health_tick}
use gosupervisor.Monitor.{handle_exited, wake, restart_failed, check_running, health_restart_failed}
use gosupervisor.Interleaving.{
  Section, check_start, recheck_start, begin_health, begin_stop, cancel_monitor, end_monitor,
  begin_restart, wake_up, fail_restart, fail_health_restart, mark_start, fail_start, commit_start,
  finish_stop, exit_monitor, tick_health, handle_exit, look, apply,
}

-- A `Start` that gets past its guards, or a restart that the monitor schedules.
pub permits : Section → Process → ℕ
permits (mark_start now user_ok) p = elim (start_mark now user_ok p).1 [ none ↦ 1 | some e ↦ 0 ]
permits (handle_exit now) p = if (handle_exited now p).2 then 1 else 0
permits s p = 0

-- A forked child that is kept.
pub keeps : Section → Process → ℕ
keeps (commit_start now pid) p = elim (start_commit now pid p).2 [ none ↦ 1 | some e ↦ 0 ]
keeps s p = 0

pub all_permits : List Section → Process → ℕ
all_permits [] p = 0
all_permits (s ∷ ss) p = permits s p + all_permits ss (apply s p)

pub all_keeps : List Section → Process → ℕ
all_keeps [] p = 0
all_keeps (s ∷ ss) p = keeps s p + all_keeps ss (apply s p)

-- 1 while the process is STARTING.
pending : Process → ℕ
pending p = if state_eq p.state starting then 1 else 0

one_section :
    (s : Section) (p : Process) → keeps s p + pending (apply s p) ≤ permits s p + pending p
unfolding keeps permits pending apply state_eq
one_section check_start p = unfold start_check in ground arith
one_section recheck_start p = unfold start_recheck in ground arith
one_section begin_health p = unfold start_health_check in ground arith
one_section begin_stop p = unfold stop_begin in ground arith
one_section cancel_monitor p = unfold monitor_cancel in ground arith
one_section end_monitor p = unfold monitor_end in ground arith
one_section begin_restart p = unfold restart_begin in ground arith
one_section wake_up p = unfold wake in ground arith
one_section fail_restart p = unfold restart_failed in ground arith
one_section fail_health_restart p = unfold health_restart_failed in ground arith
one_section (mark_start now user_ok) p = unfold start_mark in ground arith
one_section (fail_start e) p = unfold start_fail in ground arith
one_section (commit_start now pid) p = unfold start_commit in ground arith
one_section (finish_stop now) p = unfold stop_finish in ground arith
one_section (exit_monitor now code) p = unfold monitor_exit in ground arith
one_section (tick_health true) p = unfold health_tick in ground arith
one_section (tick_health false) p = unfold health_tick in ground arith
one_section (handle_exit now) p = unfold handle_exited in ground arith
one_section (look now) p = unfold check_running in ground arith

all_sections : (ss : List Section) (p : Process) → all_keeps ss p ≤ all_permits ss p + pending p
unfolding all_keeps all_permits
all_sections [] p = omega arith
all_sections (s ∷ ss) p = omega (arith, one_section s p, all_sections ss (apply s p))

-- Whatever sections of whatever callers follow one another on a process that is not STARTING, the
-- children that are forked and kept are at most as many as the starts that got past their guards
-- and the restarts that the monitor scheduled: no such permission is used for two children.
pub keeps_bounded :
    (ss : List Section) (p : Process) → p.state ≢ starting → all_keeps ss p ≤ all_permits ss p
keeps_bounded ss p h =
    let none_pending : pending p ≡ 0 = unfold pending state_eq in ground arith in
    omega (arith, all_sections ss p, none_pending)
