-- ===== src/Examples/Processes.antt =====
-- Runs of one process: starts, stops, restarts and health checks.
use gosupervisor.Events.{EventType}
use gosupervisor.Examples.{running_process, good_launch, quick_halt}
use gosupervisor.Process.Start.{start}
use gosupervisor.Process.Start.Ready.{CanAttach, IsUp, IsIdle, IsBusy}
use gosupervisor.Process.Start.Outcome.{start_branches}
use gosupervisor.Process.Start.Waiting.{old_told, state_then}
use gosupervisor.Process.Stop.{stop}
use gosupervisor.Process.Stop.Outcome.{HasChild, code_after, signals_told, farewell, stop_branches}
use gosupervisor.Process.Restart.{restart}
use gosupervisor.Process.Restart.Outcome.{late_exit, restart-running}
use gosupervisor.Examples.{running_process, good_launch, quick_halt}
use gosupervisor.Prelude.{
  text_eq, if◌then◌else◌, ℕ, ◌+◌, ◌≡◌, refl, ◌≢◌, ◌⊎◌, inr, true, false, none, some, [], ◌∷◌, ◌++◌,
  pos,
}
use gosupervisor.Process.{
  stopped, running, stopping, exited, webhook, event, already_running, already_starting,
  release_socket,
}

restart-running_example :
    let (q, told, e) = restart quick_halt good_launch running_process in
    (e ≡ none)
    × (q.state ≡ running)
    × (q.pid ≡ 43)
    × (q.cmd ≡ true)
    × (q.start_retries ≡ running_process.start_retries + 1)
    × (q.restart_count ≡ running_process.restart_count)
    × (told
        ≡ (stop quick_halt (record running_process { state = stopping })).1
          ++ (late_exit quick_halt good_launch running_process
              ++ webhook running 43 (pos 0) ∷ event EventType.start 43 (pos 0) ∷ []))
restart-running_example =
    restart-running quick_halt good_launch running_process 43 refl refl refl (inr refl) refl

start_branches_example :
    let p = record running_process { state = stopped } in
    let (q, told, e) = start good_launch p in
    ((stopped ≡ running) × (q ≡ p) × (told ≡ []) × (e ≡ some already_running))
    ⊎ ((stopped ≢ running)
        × IsBusy (state_then p)
        × (e ≡ some already_starting)
        × (told ≡ old_told good_launch p)
        × (q.state ≡ p.state)
        × (q.cmd ≡ p.cmd)
        × (q.pid ≡ p.pid)
        × (q.start_retries ≡ p.start_retries))
    ⊎ (IsIdle (state_then p)
        × ((pid : ℕ) × (good_launch.user_ok ≡ true)
            × CanAttach good_launch p
            × (good_launch.child ≡ some pid)
            × (e ≡ none)
            × (told
                ≡ old_told good_launch p
                  ++ webhook running pid (pos 0) ∷ event EventType.start pid (pos 0) ∷ [])
            × IsUp good_launch pid p q))
    ⊎ (IsIdle (state_then p)
        × ((good_launch.user_ok ≡ false)
            ⊎ ((text_eq p.config.socket [] ≡ false) × (good_launch.socket_ok ≡ false))
            ⊎ (good_launch.child ≡ none))
        × (e ≢ none)
        × (told ≡ old_told good_launch p)
        × (q.state ≡ exited)
        × (q.start_retries ≡ p.start_retries + 1))
start_branches_example = start_branches good_launch (record running_process { state = stopped })

stop_branches_example :
    let (q, told) = stop quick_halt running_process in
    (HasChild running_process
      × (q.state ≡ stopped)
      × (q.cmd ≡ false)
      × (q.pid ≡ 0)
      × (q.exit_code ≡ code_after quick_halt running_process)
      × (told ≡ signals_told quick_halt running_process ++ farewell quick_halt running_process))
    ⊎ (¬ HasChild running_process
        × (q ≡ record running_process { state = stopped })
        × (told ≡ (if text_eq running_process.config.socket [] then [] else release_socket ∷ [])))
stop_branches_example = stop_branches quick_halt running_process
