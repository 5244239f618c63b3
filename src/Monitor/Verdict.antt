-- ===== src/Monitor/Verdict.antt =====
-- internal/process/monitor.go: which exited processes are restarted and which are given up.
use gosupervisor.Events.{EventType}
use gosupervisor.Process.{starting, exited, fatal, state_eq, Process, webhook, event}
use gosupervisor.Process.Policy.{should_restart_on_exit_code, restart_rate_exceeded, code_in}
use gosupervisor.Monitor.{forgive, handle_exited}
use gosupervisor.Prelude.{exceeds, ℕ, ◌≡◌, ◌≢◌, ◌↔◌, ◌⊎◌, true, false, [], ◌∷◌, arith}

-- The conditions under which the documentation promises a restart.
pub record MayRestart (now : ℕ) (p : Process) : Type 0 where
  pub wanted : p.config.auto_restart ≡ true
  pub ended : p.state ≡ exited
  pub allowed : should_restart_on_exit_code p ≡ true
  pub within_rate : restart_rate_exceeded now p ≡ false
  pub within_retries :
      (code_in p.exit_code p.config.exit_codes ≡ true) × (exceeds 0 p.config.start_retries ≡ false)
      ⊎ (code_in p.exit_code p.config.exit_codes ≡ false)
        × (exceeds p.start_retries p.config.start_retries ≡ false)

rate_forgive :
    (now : ℕ) (p : Process) → restart_rate_exceeded now (forgive p) ≡ restart_rate_exceeded now p
unfolding forgive restart_rate_exceeded
rate_forgive now p = ground arith

restart_lem :
    (now : ℕ) (p : Process)
    → MayRestart now p
    → ((handle_exited now p).2 ≡ true)
      × ((handle_exited now p).0.state ≡ starting)
      × ((handle_exited now p).1 ≡ [])
unfolding handle_exited state_eq
restart_lem now p m = ground (arith, rate_forgive now p)

restart_only : (now : ℕ) (p : Process) → (handle_exited now p).2 ≡ true → MayRestart now p
unfolding handle_exited state_eq
restart_only now p h = ground (arith, rate_forgive now p)

-- The monitor schedules a restart of a process exactly if it is EXITED, restarts automatically, its
-- exit code is not ruled out, its restart rate is not exceeded, and its retries are not used up,
-- where an expected exit code counts as none used.
pub handle_exited_iff :
    (now : ℕ) (p : Process) → ((handle_exited now p).2 ≡ true) ↔ MayRestart now p
handle_exited_iff now p = (restart_only now p, λ m. (restart_lem now p m).0)

-- A process that is EXITED and restarts automatically becomes STARTING, in silence, if the monitor
-- schedules its restart, and else FATAL, which is told once to the webhook and once as an event; any
-- other process stays as it is.
pub handle_exited_outcome :
    (now : ℕ) (p : Process)
    → let (q, told, later) = handle_exited now p in
      ((p.config.auto_restart ≡ true)
        × (p.state ≡ exited)
        × (later ≡ true)
        × (q.state ≡ starting)
        × (told ≡ []))
      ⊎ ((p.config.auto_restart ≡ true)
          × (p.state ≡ exited)
          × (later ≡ false)
          × (q.state ≡ fatal)
          × (told ≡ webhook fatal p.pid p.exit_code ∷ event EventType.fatal p.pid p.exit_code ∷ []))
      ⊎ (((p.config.auto_restart ≡ false) ⊎ (p.state ≢ exited))
          × (later ≡ false)
          × (q ≡ p)
          × (told ≡ []))
unfolding handle_exited state_eq
handle_exited_outcome now p = ground arith
