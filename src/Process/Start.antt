-- ===== src/Process/Start.antt =====
-- internal/process/process.go: `Start`.
pub mod Waiting
pub mod Ready
pub mod Outcome
use gosupervisor.Prelude.{
  ℕ, suc, ◌+◌, ◌<◌, ◌≡◌, refl, ℤ, pos, Bool, true, false, ◌||◌, not, List, [], ◌∷◌, ◌++◌, Option,
  none, some, arith, ltb, if◌then◌else◌, text_eq,
}
use gosupervisor.Events.{EventType}
use gosupervisor.Process.{
  ProcessState, stopped, starting, running, stopping, exited, fatal, state_eq, Ctx, unset, live,
  start_cancel, has_child, Chan, nil, waiting, closed, ProgramConfig, Process, Effect, webhook,
  event, kill, detach_socket, Error, already_running, already_starting, no_user, no_socket,
  fork_failed, stopped_meanwhile,
}
use gosupervisor.Process.Exit.{WaitResult, monitor, monitor_end}
use gosupervisor.Process.Policy.{add_restart_timestamp}

-- The first section: a running process is refused, and the context of the last start is cancelled,
-- which ends its resource monitor and kills its child, if that still runs.
unfoldable pub start_check : Process → Process × List Effect × Option Error
unfolding start_cancel
start_check p =
    let (q, told) = start_cancel p in
    if state_eq p.state running then (p, [], some already_running) else (q, told, none)

-- The second section: the process is looked at again, and marked STARTING. `user_ok` says whether
-- the configured user was found, if there is one. The command itself is not modelled.
unfoldable pub start_mark : (now : ℕ) (user_ok : Bool) → Process → Process × Option Error
start_mark now user_ok p =
    if state_eq p.state running || (state_eq p.state starting || state_eq p.state stopping)
    then (p, some already_starting)
    else let q = record p {
      cmd = false;
      state = starting;
      start_retries = p.start_retries + 1;
      restart_count = if ltb 0 p.pid then p.restart_count + 1 else p.restart_count;
      last_restart = now;
      healthy = false;
      resource_healthy = false;
      health_check_failures = 0;
      start_ctx = live;
    } in
      if user_ok then (q, none) else (record q { state = exited }, some no_user)

-- A start that fails without looking at the state: `Listen` or `Attach` of the shared socket, or
-- the fork.
unfoldable pub start_fail : Error → Process → Process × Option Error
start_fail e p = (record p { state = exited }, some e)

-- After the shared socket was attached: a stop in the meantime ends the start.
unfoldable pub start_recheck : Process → Process × Option Error
start_recheck p = if state_eq p.state starting then (p, none) else (p, some stopped_meanwhile)

-- The last section, after the child `pid` was forked. If the process was stopped in the meantime
-- the child is killed.
unfoldable pub start_commit : (now pid : ℕ) → Process → Process × List Effect × Option Error
start_commit now pid p =
    if state_eq p.state starting
    then (
      record p {
        wait_ch = waiting;
        monitor_done = waiting;
        cmd = true;
        pid = pid;
        start_time = now;
        state = running;
        restart_timestamps =
            add_restart_timestamp now p.config.restart_window_secs p.restart_timestamps;
      },
      webhook running pid (pos 0) ∷ event EventType.start pid (pos 0) ∷ [],
      none,
    )
    else (p, kill pid ∷ [], some stopped_meanwhile)

-- What one call of `Start` meets outside: the time, whether the user is known, whether the shared
-- socket can be attached, if one is configured, and the child, if the fork succeeds.
pub record Launch : Type 0 where
  pub now : ℕ
  pub user_ok : Bool
  pub socket_ok : Bool
  pub child : Option ℕ
  -- How a child that `Start` has to wait for ends.
  pub old_child : WaitResult

-- `<-monDone`: until the `monitor` of the last start is done. If its child still runs, the context of
-- that child is cancelled by now, so that the child has been killed.
unfoldable pub start_wait : Launch → Process → Process × List Effect
unfolding has_child monitor
start_wait env p = elim p.monitor_done [
  | waiting ↦ if has_child p then monitor env.now env.old_child p else (monitor_end p, [])
  | _ ↦ (p, [])
]

-- `startHealthCheck`, if a health check is configured: a new context for its goroutine.
unfoldable pub start_health_check : Process → Process
start_health_check p =
    if text_eq p.config.health_check_url [] then p else record p { health_check_ctx = live }

-- From the fork on.
unfoldable pub start_fork : Launch → Process → Process × List Effect × Option Error
unfolding start_fail start_commit start_health_check
start_fork env p = elim env.child [
  | none ↦ (record p { state = exited }, [], some fork_failed)
  | some pid ↦
      let (q, told, e) = start_commit env.now pid p in
      (elim e [ none ↦ start_health_check q | some _ ↦ q ], told, e)
]

-- From the socket on. `p.manager` is set in every process of a manager.
unfoldable pub start_socket : Launch → Process → Process × List Effect × Option Error
unfolding start_fork start_recheck
start_socket env p =
    if text_eq p.config.socket []
    then start_fork env p
    else if not env.socket_ok
    then (record p { state = exited }, [], some no_socket)
    else elim (start_recheck p).1 [
      | none ↦ start_fork env p
      | some e ↦ (p, detach_socket ∷ [], some e)
    ]

-- From the second section on.
unfoldable pub start_ready : Launch → Process → Process × List Effect × Option Error
unfolding start_mark start_socket
start_ready env p =
    let (q, e) = start_mark env.now env.user_ok p in
    let later = start_socket env q in elim e [ some err ↦ (q, [], some err) | none ↦ later ]

-- A call of `Start` that nothing but the `monitor` it waits for interrupts. A child that another
-- `Start` has forked but not yet committed is not in the model.
unfoldable pub start : Launch → Process → Process × List Effect × Option Error
unfolding start_check start_wait start_ready
start env p =
    let (p1, killed, e1) = start_check p in
    let (p2, waited) = start_wait env p1 in
    let (p3, told, e3) = start_ready env p2 in
    elim e1 [ some e ↦ (p1, [], some e) | none ↦ (p3, killed ++ waited ++ told, e3) ]
