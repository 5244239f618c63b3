-- ===== src/Interleaving/Losses.antt =====
-- internal/process/process.go: two orders of sections in which calls of `Stop` and `Start` meet.
use gosupervisor.Prelude.{
  ℕ, ◌+◌, ◌≡◌, ◌∙◌, ap, ◌++◌, ℤ, is_positive, exceeds, true, false, List, [], ◌∷◌, arith,
}
use gosupervisor.Process.{
  stopped, running, exited, live, waiting, state_eq, has_child, Process, Error, kill, webhook,
  event,
}
use gosupervisor.Events.{EventType}
use gosupervisor.Process.Policy.{should_restart_on_exit_code, restart_rate_exceeded}
use gosupervisor.Process.Start.{start_check, start_mark, start_fail, start_commit}
use gosupervisor.Process.Start.Ready.{IsIdle}
use gosupervisor.Process.Stop.{stop_begin, stop_finish, release_of}
use gosupervisor.Process.Exit.{monitor_cancel, monitor_exit, monitor_end}
use gosupervisor.Monitor.{handle_exited}
use gosupervisor.Interleaving.{
  Section, begin_stop, check_start, cancel_monitor, end_monitor, mark_start, fail_start,
  commit_start, finish_stop, exit_monitor, apply, apply_all,
}

-- A `Stop` between the first sections of a `Start` and its failing fork marks the process STOPPED,
-- but the failing `Start` then marks it EXITED, and the monitor schedules a restart of the process
-- that was stopped, if its exit code policy and its retries allow one and no restart rate is set.
pub fail_after_stop-restarts :
    (now later : ℕ) (e : Error) (p : Process)
    → IsIdle p.state
    → p.config.auto_restart ≡ true
    → should_restart_on_exit_code p ≡ true
    → is_positive p.config.restart_max_count ≡ false
    → exceeds (p.start_retries + 1) p.config.start_retries ≡ false
    → let halted = apply_all (mark_start now true ∷ begin_stop ∷ []) p in
      let failed = apply (fail_start e) halted in
      (halted.state ≡ stopped) × (failed.state ≡ exited) × ((handle_exited later failed).2 ≡ true)
unfolding apply_all apply state_eq start_mark stop_begin start_fail should_restart_on_exit_code
    restart_rate_exceeded
fail_after_stop-restarts now later e p idle auto allowed unlimited few =
    unfold handle_exited in ground arith

-- Two stops begin, the child ends, one stop finishes, and a start brings up `pid`.
abbrev pub late_sections : (now later : ℕ) → ℤ → (pid : ℕ) → List Section
late_sections now later code pid =
    begin_stop
    ∷ begin_stop
    ∷ cancel_monitor
    ∷ exit_monitor now code
    ∷ end_monitor
    ∷ finish_stop now
    ∷ check_start
    ∷ mark_start later true
    ∷ commit_start later pid
    ∷ []

brought_up :
    (now later : ℕ) (code : ℤ) (pid : ℕ) (p : Process)
    → p.state ≡ running
    → p.cmd ≡ true
    → let q = apply_all (late_sections now later code pid) p in
      (q.state ≡ running)
      × (q.cmd ≡ true)
      × (q.pid ≡ pid)
      × (q.exit_code ≡ code)
      × (q.config ≡ p.config)
      × (q.start_ctx ≡ live)
      × (q.wait_ch ≡ waiting)
      × (q.monitor_done ≡ waiting)
unfolding apply_all apply state_eq start_check start_mark stop_begin start_commit stop_finish
    monitor_cancel monitor_exit monitor_end
brought_up now later code pid p up c = ground arith

finish_running :
    (end : ℕ) (code : ℤ) (pid : ℕ) (q : Process)
    → q.state ≡ running
    → q.pid ≡ pid
    → q.exit_code ≡ code
    → q.start_ctx ≡ live
    → q.wait_ch ≡ waiting
    → q.monitor_done ≡ waiting
    → let (r, told) = stop_finish end q in
      (r.state ≡ running)
      × (r.cmd ≡ false)
      × (r.pid ≡ 0)
      × (told
          ≡ kill pid ∷ release_of q.config
            ++ webhook stopped pid code ∷ event EventType.stop pid code ∷ [])
unfolding stop_finish state_eq has_child
finish_running end code pid q up n k c w m = ground arith

exit_running :
    (now : ℕ) (code : ℤ) (r : Process)
    → r.state ≡ running
    → r.pid ≡ 0
    → let (q, told) = monitor_exit now code r in
      (q.state ≡ exited) × (told ≡ webhook exited 0 code ∷ event EventType.exit 0 code ∷ [])
unfolding monitor_exit state_eq
exit_running now code r up n = ground arith

-- If two calls of `Stop` begin on the same RUNNING child, it ends, one of them finishes, and a new
-- `Start` brings up the child `pid` before the other one finishes, then that late end of the stop
-- kills the new child, by the context of its start, and reports it as stopped with the exit code of
-- the old one, while the process stays RUNNING without a command or a number; when the end of the new
-- child is seen, with `killed`, the process is EXITED and the exit is told under the number 0.
pub late_finish-kills_child :
    (now later end : ℕ) (code killed : ℤ) (pid : ℕ) (p : Process)
    → p.state ≡ running
    → p.cmd ≡ true
    → let q = apply_all (late_sections now later code pid) p in
      let (r, told) = stop_finish end q in
      let (last, exit_told) = monitor_exit end killed (monitor_cancel r) in
      (q.state ≡ running)
      × (q.pid ≡ pid)
      × (r.state ≡ running)
      × (r.cmd ≡ false)
      × (r.pid ≡ 0)
      × (told
          ≡ kill pid ∷ release_of p.config
            ++ webhook stopped pid code ∷ event EventType.stop pid code ∷ [])
      × (last.state ≡ exited)
      × (exit_told ≡ webhook exited 0 killed ∷ event EventType.exit 0 killed ∷ [])
unfolding monitor_cancel
late_finish-kills_child now later end code killed pid p up c =
    let q = apply_all (late_sections now later code pid) p in
    let (on, cmd, num, old, config, ctx, wait, done) = brought_up now later code pid p up c in
    let (state, gone, zero, told) = finish_running end code pid q on num old ctx wait done in
    let (ended, exit_told) =
      exit_running end killed (monitor_cancel (stop_finish end q).0) state zero in
    (
      on,
      num,
      state,
      gone,
      zero,
      told
          ∙ ap
              (λ cfg.
                kill pid ∷ release_of cfg
                ++ webhook stopped pid code ∷ event EventType.stop pid code ∷ [])
              config,
      ended,
      exit_told,
    )
