-- ===== src/Process/Start/Ready.antt =====
-- internal/process/process.go: what `Start` does from its second section on.
use gosupervisor.Prelude.{
  text_eq, ℕ, ◌+◌, ◌≡◌, ◌⊎◌, ◌≢◌, pos, true, false, [], ◌∷◌, none, some, arith, ltb, if◌then◌else◌,
}
use gosupervisor.Events.{EventType}
use gosupervisor.Process.{
  ProcessState, starting, running, stopping, exited, state_eq, Process, webhook, event,
  already_starting, has_child,
}
use gosupervisor.Process.Policy.{add_restart_timestamp}
use gosupervisor.Process.Start.{Launch, start_ready}

-- No shared socket is configured, or it can be attached.
abbrev pub CanAttach : Launch → Process → Type 0
CanAttach env p = (text_eq p.config.socket [] ≡ true) ⊎ (env.socket_ok ≡ true)

abbrev pub IsIdle : ProcessState → Type 0
IsIdle s = (s ≢ running) × (s ≢ starting) × (s ≢ stopping)

-- A process that such a start has brought up with the child `pid`.
pub record IsUp (env : Launch) (pid : ℕ) (p q : Process) : Type 0 where
  pub is_running : q.state ≡ running
  pub has_cmd : q.cmd ≡ true
  pub new_pid : q.pid ≡ pid
  pub since : q.start_time ≡ env.now
  pub one_more_try : q.start_retries ≡ p.start_retries + 1
  pub counted : q.restart_count ≡ (if ltb 0 p.pid then p.restart_count + 1 else p.restart_count)
  pub not_yet_healthy : (q.healthy ≡ false) × (q.health_check_failures ≡ 0)
  pub same_flag : q.health_check_restart_fired ≡ p.health_check_restart_fired
  pub logged :
      q.restart_timestamps
      ≡ add_restart_timestamp env.now p.config.restart_window_secs p.restart_timestamps

abbrev pub IsBusy : ProcessState → Type 0
IsBusy s = (s ≡ starting) ⊎ (s ≡ stopping)

pub state_cases : (s : ProcessState) → (s ≡ running) ⊎ IsBusy s ⊎ IsIdle s
state_cases s = ground arith

-- From the second section on: a process that is STARTING or STOPPING is refused.
pub ready_refused :
    (env : Launch) (p : Process)
    → IsBusy p.state
    → start_ready env p ≡ (p, [], some already_starting)
unfolding start_ready state_eq
ready_refused env p h = ground arith

-- From there on, an idle process is brought up, or is left EXITED.
pub ready_outcome :
    (env : Launch) (p : Process)
    → IsIdle p.state
    → let (q, told, e) = start_ready env p in
      ((pid : ℕ) × (env.user_ok ≡ true)
        × CanAttach env p
        × (env.child ≡ some pid)
        × (e ≡ none)
        × (told ≡ webhook running pid (pos 0) ∷ event EventType.start pid (pos 0) ∷ [])
        × IsUp env pid p q)
      ⊎ (((env.user_ok ≡ false)
            ⊎ ((text_eq p.config.socket [] ≡ false) × (env.socket_ok ≡ false))
            ⊎ (env.child ≡ none))
          × (e ≢ none)
          × (told ≡ [])
          × (q.state ≡ exited)
          × (q.start_retries ≡ p.start_retries + 1))
unfolding start_ready state_eq
ready_outcome env p h = ground arith

pub ready_keeps :
    (env : Launch) (p : Process)
    → let q = (start_ready env p).0 in
      (q.config ≡ p.config)
      × (q.exit_code ≡ p.exit_code)
      × (q.health_check_restart_fired ≡ p.health_check_restart_fired)
      × (has_child p ≡ false → q.state ≡ exited → has_child q ≡ false)
unfolding start_ready state_eq has_child
ready_keeps env p = ground arith
