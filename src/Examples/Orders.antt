-- ===== src/Examples/Orders.antt =====
-- Runs of interleaved sections.
use gosupervisor.Prelude.{◌≤◌, ◌≡◌, refl, ◌++◌, pos, negsuc, true, false, List, [], ◌∷◌}
use gosupervisor.Process.{stopped, running, exited, fork_failed, kill, webhook, event}
use gosupervisor.Process.Policy.{should_restart_on_exit_code}
use gosupervisor.Process.Stop.{stop_finish, release_of}
use gosupervisor.Process.Exit.{monitor_cancel, monitor_exit}
use gosupervisor.Events.{EventType}
use gosupervisor.Monitor.{handle_exited}
use gosupervisor.Interleaving.{
  Section, begin_stop, mark_start, fail_start, commit_start, check_start, handle_exit, exit_monitor,
  apply, apply_all,
}
use gosupervisor.Interleaving.Children.{all_keeps, all_permits, keeps_bounded}
use gosupervisor.Interleaving.Losses.{
  late_sections, fail_after_stop-restarts, late_finish-kills_child,
}
use gosupervisor.Examples.{running_process, crashed_process}

abbrev sections : List Section
sections =
    check_start
    ∷ mark_start 1 true
    ∷ mark_start 1 true
    ∷ commit_start 2 43
    ∷ commit_start 2 44
    ∷ exit_monitor 3 (pos 1)
    ∷ handle_exit 4
    ∷ commit_start 5 45
    ∷ []

keeps_bounded_example : all_keeps sections crashed_process ≤ all_permits sections crashed_process
keeps_bounded_example = keeps_bounded sections crashed_process (λ e. cc)

fail_after_stop-restarts_example :
    let halted = apply_all (mark_start 8 true ∷ begin_stop ∷ []) crashed_process in
    let failed = apply (fail_start fork_failed) halted in
    (halted.state ≡ stopped) × (failed.state ≡ exited) × ((handle_exited 9 failed).2 ≡ true)
fail_after_stop-restarts_example =
    fail_after_stop-restarts 8 9 fork_failed crashed_process ((λ e. cc), (λ e. cc), (λ e. cc)) refl
      (unfold should_restart_on_exit_code in refl) refl refl

late_finish-kills_child_example :
    let q = apply_all (late_sections 8 9 (pos 0) 43) running_process in
    let (r, told) = stop_finish 10 q in
    let (last, exit_told) = monitor_exit 10 (negsuc 0) (monitor_cancel r) in
    (q.state ≡ running)
    × (q.pid ≡ 43)
    × (r.state ≡ running)
    × (r.cmd ≡ false)
    × (r.pid ≡ 0)
    × (told
        ≡ kill 43 ∷ release_of running_process.config
          ++ webhook stopped 43 (pos 0) ∷ event EventType.stop 43 (pos 0) ∷ [])
    × (last.state ≡ exited)
    × (exit_told ≡ webhook exited 0 (negsuc 0) ∷ event EventType.exit 0 (negsuc 0) ∷ [])
late_finish-kills_child_example =
    late_finish-kills_child 8 9 10 (pos 0) (negsuc 0) 43 running_process refl refl
