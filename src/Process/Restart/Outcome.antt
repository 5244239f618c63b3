-- ===== src/Process/Restart/Outcome.antt =====
-- internal/process/process.go: what a call of `Restart` leaves behind.
use gosupervisor.Prelude.{
  ◌+◌, ◌≡◌, ◌≢◌, ◌⊎◌, ◌∙◌, ap, sym, subst, text_eq, ltb, refl, true, false, List, [], ◌∷◌, ◌++◌,
  none, some, arith, pos, ℕ, if◌then◌else◌,
}
use gosupervisor.Process.{
  starting, running, stopping, stopped, exited, fatal, live, cancel, state_eq, Process, Effect,
  is_fatal, webhook, event, has_child,
}
use gosupervisor.Events.{EventType}
use gosupervisor.Process.Exit.{exit_code_of}
use gosupervisor.Process.Start.Ready.{CanAttach, IsIdle}
use gosupervisor.Process.Start.Outcome.{start-IsUp}
use gosupervisor.Process.Start.Waiting.{old_told, state_then}
use gosupervisor.Process.Start.{Launch, start}
use gosupervisor.Process.Stop.{Halt, stop, never}
use gosupervisor.Process.Stop.Outcome.{seen_end}
use gosupervisor.Process.Restart.{
  restart, restart_begin, restart_after_stop, restart_recheck, proceed,
}

-- A FATAL process is not restarted, and one that is STARTING or STOPPING is left to those who start
-- or stop it: it is not changed, nothing is told, and only the first is an error.
pub restart_declined :
    (halt : Halt) (launch : Launch) (p : Process)
    → (p.state ≡ fatal) ⊎ (p.state ≡ starting) ⊎ (p.state ≡ stopping)
    → restart halt launch p ≡ (p, [], elim p.state [ fatal ↦ some is_fatal | _ ↦ none ])
unfolding restart_begin state_eq restart
restart_declined halt launch p h = ground arith

-- What is told while the new start waits for a child that the stop did not see to end.
pub late_exit : Halt → Launch → Process → List Effect
late_exit halt launch p = elim (seen_end halt p) [
  | never ↦
      if has_child p
      then webhook exited 0 (exit_code_of launch.old_child)
        ∷ event EventType.exit 0 (exit_code_of launch.old_child)
        ∷ []
      else []
  | _ ↦ []
]

told_late :
    (launch : Launch) (q : Process)
    → q.state ≡ stopped
    → q.pid ≡ 0
    → q.start_ctx ≢ live
    → old_told launch q ≡ (
        if has_child q
        then webhook exited 0 (exit_code_of launch.old_child)
          ∷ event EventType.exit 0 (exit_code_of launch.old_child)
          ∷ []
        else [])
unfolding old_told state_eq
told_late launch q s n c = ground arith

still_waited :
    (halt : Halt) (p : Process)
    → p.state ≡ running
    → p.cmd ≡ true
    → has_child (stop halt (record p { state = stopping })).0
      ≡ (elim (seen_end halt p) [ never ↦ has_child p | _ ↦ false ])
unfolding stop state_eq seen_end has_child
still_waited halt p up c = ground arith

halted_lem :
    (halt : Halt) (p : Process)
    → p.state ≡ running
    → p.cmd ≡ true
    → let q = (stop halt (record p { state = stopping })).0 in
      (q.state ≡ stopped)
      × (q.pid ≡ 0)
      × (q.config ≡ p.config)
      × (q.start_retries ≡ p.start_retries)
      × (q.restart_count ≡ p.restart_count)
      × (q.start_ctx ≢ live)
unfolding stop state_eq cancel
halted_lem halt p up c = ground arith

state_then-IsIdle : (q : Process) → q.state ≡ stopped → IsIdle (state_then q)
unfolding state_then state_eq
state_then-IsIdle q h = ground arith

late_lem :
    (halt : Halt) (launch : Launch) (p : Process)
    → p.state ≡ running
    → p.cmd ≡ true
    → old_told launch (stop halt (record p { state = stopping })).0 ≡ late_exit halt launch p
unfolding late_exit
late_lem halt launch p up c =
    let q = (stop halt (record p { state = stopping })).0 in
    let (s, n, _, _, _, ctx) = halted_lem halt p up c in
    told_late launch q s n ctx ∙ (ground (arith, still_waited halt p up c))

begin_running :
    (p : Process) → p.state ≡ running → restart_begin p ≡ (record p { state = stopping }, proceed)
unfolding restart_begin state_eq
begin_running p up = ground arith

start_follows :
    (launch : Launch) (q : Process) (told : List Effect)
    → q.state ≡ stopped
    → restart_after_stop launch q told
      ≡ ((start launch q).0, told ++ (start launch q).1, (start launch q).2)
unfolding restart_after_stop restart_recheck state_eq
start_follows launch q told h = rw (h, restart_after_stop) refl

restart-stops :
    (halt : Halt) (launch : Launch) (p : Process)
    → p.state ≡ running
    → p.cmd ≡ true
    → let (q, told) = stop halt (record p { state = stopping }) in
      restart halt launch p ≡ ((start launch q).0, told ++ (start launch q).1, (start launch q).2)
unfolding restart
restart-stops halt launch p up c =
    let (q, told) = stop halt (record p { state = stopping }) in
    rw (begin_running p up, restart)
      (ap (λ x. restart_after_stop launch (stop halt x).0 (stop halt x).1)
          (ap (λ r. r.0) (begin_running p up))
        ∙ start_follows launch q told (halted_lem halt p up c).0)

-- A restart of a RUNNING process that nothing but the `monitor` of its child interrupts, where the
-- new start meets no obstacle, stops the child as `Stop` does, then starts the process with the new
-- child `pid`. If the child was not seen to end, the start first waits for its `monitor`, which tells
-- the exit, under the number 0, that the stop has left. The try is counted, but not the restart: the
-- stop has cleared the number that `Start` goes by.
pub restart-running :
    (halt : Halt) (launch : Launch) (p : Process) (pid : ℕ)
    → p.state ≡ running
    → p.cmd ≡ true
    → launch.user_ok ≡ true
    → CanAttach launch p
    → launch.child ≡ some pid
    → let (q, told, e) = restart halt launch p in
      (e ≡ none)
      × (q.state ≡ running)
      × (q.pid ≡ pid)
      × (q.cmd ≡ true)
      × (q.start_retries ≡ p.start_retries + 1)
      × (q.restart_count ≡ p.restart_count)
      × (told
          ≡ (stop halt (record p { state = stopping })).1
            ++ (late_exit halt launch p
                ++ webhook running pid (pos 0) ∷ event EventType.start pid (pos 0) ∷ []))
restart-running halt launch p pid r c u s f =
    let q = (stop halt (record p { state = stopping })).0 in
    let (state, pid_gone, config, tries, count, _) = halted_lem halt p r c in
    let (ok, said, up) =
      start-IsUp launch q pid (λ e. cc) (state_then-IsIdle q state) u
        (subst (λ cfg. (text_eq cfg.socket [] ≡ true) ⊎ (launch.socket_ok ≡ true)) (sym config) s)
        f in
    let e = restart-stops halt launch p r c in
    let told = (stop halt (record p { state = stopping })).1 in
    (
      ap (λ x. x.2) e ∙ ok,
      ap (λ x. x.0.state) e ∙ up.is_running,
      ap (λ x. x.0.pid) e ∙ up.new_pid,
      ap (λ x. x.0.cmd) e ∙ up.has_cmd,
      ap (λ x. x.0.start_retries) e ∙ up.one_more_try ∙ ap (λ n. n + 1) tries,
      ap (λ x. x.0.restart_count) e
          ∙ up.counted
          ∙ ap (λ n. if ltb 0 n then q.restart_count + 1 else q.restart_count) pid_gone
          ∙ count,
      ap (λ x. x.1) e
          ∙ ap (λ t. told ++ t) said
          ∙ ap
              (λ t.
                told ++ (t ++ webhook running pid (pos 0) ∷ event EventType.start pid (pos 0) ∷ []))
              (late_lem halt launch p r c),
    )
