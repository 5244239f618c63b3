-- ===== src/Process/Start/Waiting.antt =====
-- internal/process/process.go: how a call of `Start` waits for the last child.
use gosupervisor.Prelude.{
  ◌≡◌, ◌≢◌, ap, refl, false, ◌&&◌, not, List, [], ◌∷◌, ◌++◌, Option, some, arith, if◌then◌else◌,
}
use gosupervisor.Events.{EventType}
use gosupervisor.Process.{
  ProcessState, running, stopping, exited, state_eq, Process, Effect, webhook, event, kill, live,
  already_running, has_child, Error,
}
use gosupervisor.Process.Exit.{exit_code_of}
use gosupervisor.Process.Start.{Launch, start, start_ready, start_check, start_wait}

-- What a start that is not refused at once tells of the last child, if that still runs: the child is
-- killed where its context is not yet cancelled, and its exit is told unless a stop is under way.
unfoldable pub old_told : Launch → Process → List Effect
old_told env p =
    if has_child p
    then (elim p.start_ctx [ live ↦ kill p.pid ∷ [] | _ ↦ [] ])
      ++ (if state_eq p.state stopping
          then []
          else webhook exited p.pid (exit_code_of env.old_child)
            ∷ event EventType.exit p.pid (exit_code_of env.old_child)
            ∷ [])
    else []

-- The state that such a start finds once the last child has ended.
unfoldable pub state_then : Process → ProcessState
state_then p = if has_child p && not (state_eq p.state stopping) then exited else p.state

-- What the wait for the last child leaves.
pub record Waited (env : Launch) (p q : Process) (told : List Effect) : Type 0 where
  pub now_state : q.state ≡ state_then p
  pub same_config : q.config ≡ p.config
  pub same_cmd : q.cmd ≡ p.cmd
  pub same_pid : q.pid ≡ p.pid
  pub same_tries : q.start_retries ≡ p.start_retries
  pub same_count : q.restart_count ≡ p.restart_count
  pub same_fired : q.health_check_restart_fired ≡ p.health_check_restart_fired
  pub same_log : q.restart_timestamps ≡ p.restart_timestamps
  pub all_told : told ≡ old_told env p

waited :
    (env : Launch) (p : Process)
    → p.state ≢ running
    → let (p1, killed, e) = start_check p in
      let (p2, told) = start_wait env p1 in Waited env p p2 (killed ++ told)
unfolding start_check start_wait state_eq old_told state_then has_child
waited env p h = ground arith

pub started_lem :
    (env : Launch) (p : Process)
    → p.state ≢ running
    → let (p1, killed, e) = start_check p in
      let (p2, told) = start_wait env p1 in
      let r = start_ready env p2 in start env p ≡ (r.0, killed ++ told ++ r.1, r.2)
unfolding start start_check state_eq
started_lem env p h = ground arith

pub start_again :
    (env : Launch) (p : Process) → p.state ≡ running → start env p ≡ (p, [], some already_running)
unfolding start start_check state_eq
start_again env p h = ground arith

-- A start that is not refused at once is a start of what the wait leaves.
pub record IsStart (env : Launch) (p q : Process) (told : List Effect) (e : Option Error)
    : Type 0 where
  pub ready : Process
  pub before : List Effect
  pub wait : Waited env p ready before
  pub final : q ≡ (start_ready env ready).0
  pub said : told ≡ before ++ (start_ready env ready).1
  pub result : e ≡ (start_ready env ready).2

pub is_start :
    (env : Launch) (p : Process)
    → p.state ≢ running
    → let (q, told, e) = start env p in IsStart env p q told e
is_start env p h =
    let (p1, killed, e1) = start_check p in
    let (p2, told) = start_wait env p1 in
    let r = start_ready env p2 in
    let eq = started_lem env p h in
    record {
      ready = p2;
      before = killed ++ told;
      wait = waited env p h;
      final = ap (λ r. r.0) eq;
      said = ap (λ r. r.1) eq;
      result = ap (λ r. r.2) eq;
    }

-- The wait never makes a process RUNNING, and only leaves it EXITED or as it was.
pub then_lem :
    (p : Process)
    → p.state ≢ running
    → (state_then p ≢ running) × ((state_then p ≢ exited) → state_then p ≡ p.state)
unfolding state_then state_eq
then_lem p h = ground arith

-- Without such a child nothing is told of it, and nothing changes by the wait.
pub no_child_lem :
    (env : Launch) (p : Process)
    → has_child p ≡ false
    → (old_told env p ≡ []) × (state_then p ≡ p.state)
unfolding old_told state_then
no_child_lem env p h = rw h (refl, refl)

pub wait_keeps :
    (env : Launch) (p : Process)
    → has_child p ≡ false
    → let q = (start_wait env (start_check p).0).0 in
      (q.config ≡ p.config)
      × (q.exit_code ≡ p.exit_code)
      × (q.health_check_restart_fired ≡ p.health_check_restart_fired)
      × (has_child q ≡ false)
unfolding start_check start_wait has_child
wait_keeps env p h = ground arith
