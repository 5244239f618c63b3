-- ===== src/Monitor.antt =====
-- internal/process/monitor.go: the monitor that looks at each process once a second. Sections under
-- `p.mu` are functions on `Process`; the restart goroutine is cut in the same way.
pub mod Verdict
pub mod Retries
pub mod Sockets
pub mod Running
use gosupervisor.Prelude.{
  ℕ, ◌+◌, ◌*◌, ◌-◌, ℤ, pos, is_positive, nat_of, exceeds, Bool, true, false, ◌||◌, ◌&&◌, not, List,
  [], ◌∷◌, ◌++◌, Option, none, some, ltb, if◌then◌else◌, text_eq,
}
use gosupervisor.Events.{EventType}
use gosupervisor.Process.{
  ProcessState, stopped, starting, running, stopping, exited, fatal, state_eq, Process, Effect,
  webhook, event, release_socket,
}
use gosupervisor.Process.Exit.{WaitResult, monitor}
use gosupervisor.Process.Policy.{
  second, restart_rate_exceeded, code_in, should_restart_on_exit_code,
}
use gosupervisor.Process.Start.{Launch, start}
use gosupervisor.Process.Stop.{release_of}

-- FATAL, with what is told of it.
unfoldable pub give_up : Process → Process × List Effect × Bool
give_up p = (
  record p { state = fatal },
  webhook fatal p.pid p.exit_code ∷ event EventType.fatal p.pid p.exit_code ∷ [],
  false,
)

-- An expected exit code resets the count of retries.
unfoldable pub forgive : Process → Process
forgive p = if code_in p.exit_code p.config.exit_codes then record p { start_retries = 0 } else p

-- The section of `handleExitedProcess`; `true` where it starts the restart goroutine.
unfoldable pub handle_exited : (now : ℕ) → Process → Process × List Effect × Bool
unfolding give_up forgive
handle_exited now p =
    if not p.config.auto_restart
    then (p, [], false)
    else if not (state_eq p.state exited)
    then (p, [], false)
    else if not (should_restart_on_exit_code p)
    then give_up p
    else if restart_rate_exceeded now (forgive p)
    then give_up (forgive p)
    else if exceeds (forgive p).start_retries p.config.start_retries
    then give_up (forgive p)
    else (record (forgive p) { state = starting }, [], true)

-- The goroutine's first two sections, after its second of sleep; `true` where it goes on to start
-- the process. Between them nothing is done but to print a line.
unfoldable pub wake : Process → Process × Bool
wake p =
    if state_eq p.state stopped || state_eq p.state stopping
    then (p, false)
    else if state_eq p.state starting && p.health_check_restart_fired
    then (record p { health_check_restart_fired = false; state = exited }, false)
    else if state_eq p.state starting
    then (record p { state = exited }, true)
    else (p, state_eq p.state exited)

-- The section after a start that failed.
unfoldable pub restart_failed : Process → Process × List Effect
restart_failed p =
    if state_eq p.state stopped || (state_eq p.state stopping || state_eq p.state starting)
    then (p, [])
    else if exceeds p.start_retries p.config.start_retries
    then (record p { state = fatal }, webhook fatal p.pid p.exit_code ∷ [])
    else (p, [])

-- The reset of the retries in `checkRunningProcess`.
unfoldable pub settle : (now : ℕ) → Process → Process
settle now p =
    if is_positive p.config.start_secs
      && (ltb (nat_of p.config.start_secs * second) (now - p.start_time)
          && (p.healthy || text_eq p.config.health_check_url []))
    then record p { start_retries = 0 }
    else p

-- The section of `checkRunningProcess`; `true` where the process is to be restarted.
unfoldable pub check_running : (now : ℕ) → Process → Process × Bool
unfolding settle
check_running now p =
    if state_eq p.state stopping
    then (p, false)
    else let q = settle now p in
      if q.config.health_check_restart
        && (not q.healthy && not (text_eq q.config.health_check_url []))
      then (if not (state_eq q.state running) || q.health_check_restart_fired
          then (q, false)
          else (record q { health_check_restart_fired = true }, true))
      else (q, false)

-- The section after a health check restart that failed.
unfoldable pub health_restart_failed : Process → Process × List Effect
health_restart_failed p =
    if state_eq p.state running || state_eq p.state starting
    then (p, [])
    else if exceeds p.start_retries p.config.start_retries
    then (record p { state = fatal }, webhook fatal p.pid p.exit_code ∷ [])
    else (p, [])

-- What `checkProcess` asks for beside its sections.
pub data Task : Type 0 where
  no_task restart_later restart_now : Task

-- The shared socket of an exited process that is not restarted is released.
unfoldable pub release_if_done : Process → List Effect
unfolding release_of
release_if_done p =
    if state_eq p.state fatal || (state_eq p.state exited || state_eq p.state stopped)
    then release_of p.config
    else []

unfoldable pub check_process : (now : ℕ) → Process → Process × List Effect × Task
unfolding handle_exited release_if_done check_running
check_process now p = elim p.state [
  | exited ↦
      let (q, told, later) = handle_exited now p in
      (q, told ++ release_if_done q, if later then restart_later else no_task)
  | running ↦
      let (q, again) = check_running now p in (q, [], if again then restart_now else no_task)
  | _ ↦ (p, [], no_task)
]

-- The restart goroutine as a whole, if nothing interrupts it, up to the end of the new child.
pub record Cycle : Type 0 where
  pub now : ℕ
  pub launch : Launch
  pub ended : ℕ
  pub result : WaitResult

unfoldable pub restart_goroutine : Cycle → Process → Process
restart_goroutine c p =
    let (p1, go) = wake p in
    let (p2, told, error) = start c.launch p1 in
    elim go [
      | false ↦ p1
      | true ↦ elim error [
        | none ↦ (monitor c.ended c.result p2).0
        | some e ↦ (restart_failed p2).0
      ]
    ]

-- One exit, what the monitor makes of it, and the next exit.
unfoldable pub crash_cycle : Cycle → Process → Process
crash_cycle c p =
    let (p1, told, later) = handle_exited c.now p in
    elim later [ true ↦ restart_goroutine c p1 | false ↦ p1 ]

unfoldable pub crash_cycles : List Cycle → Process → Process
crash_cycles [] p = p
crash_cycles (c ∷ cs) p = crash_cycles cs (crash_cycle c p)
