-- ===== src/Process/Stop.antt =====
-- internal/process/process.go: `Stop`.
pub mod Outcome
use gosupervisor.Prelude.{
  ℕ, ℤ, Bool, true, false, ◌||◌, ◌&&◌, not, List, [], ◌∷◌, ◌++◌, Option, none, some, Text, text_eq,
  lookup, if◌then◌else◌,
}
use gosupervisor.Events.{EventType}
use gosupervisor.Process.{
  ProcessState, stopped, running, stopping, state_eq, cancel, start_cancel, has_wait_ch,
  ProgramConfig, Process, Effect, webhook, event, signal_process, signal_group, kill,
  release_socket, stop_signals, sigterm, sigkill, signals_group,
}
use gosupervisor.Process.Exit.{WaitResult, monitor}

unfoldable pub release_of : ProgramConfig → List Effect
release_of cfg = if text_eq cfg.socket [] then [] else release_socket ∷ []

-- The first section. `some pid` where there is a child to be signalled; else the process is marked
-- STOPPED at once, and only the shared socket is released.
unfoldable pub stop_begin : Process → Process × List Effect × Option ℕ
unfolding release_of
stop_begin p =
    if not p.cmd
    then (record p { state = stopped }, release_of p.config, none)
    else if not (state_eq p.state running) && not (state_eq p.state stopping)
    then (record p { state = stopped }, release_of p.config, none)
    else (record p { state = stopping }, [], some p.pid)

unfoldable pub graceful_signal : ProgramConfig → ℕ
graceful_signal cfg = elim (lookup cfg.stop_signal stop_signals) [ none ↦ sigterm | some sig ↦ sig ]

unfoldable pub send_to : ProgramConfig → (pid signal : ℕ) → Effect
unfolding signals_group
send_to cfg pid sig = if signals_group cfg then signal_group pid sig else signal_process pid sig

-- When the child is seen to end: within `StopSecs`, within five seconds after SIGKILL, or never.
pub data Death : Type 0 where
  in_time forced never : Death

-- The signals between the two sections.
unfoldable pub stop_signals_sent : ProgramConfig → ℕ → Death → List Effect
unfolding graceful_signal send_to
stop_signals_sent cfg pid in_time = send_to cfg pid (graceful_signal cfg) ∷ []
stop_signals_sent cfg pid _ =
    send_to cfg pid (graceful_signal cfg)
    ∷ (if signals_group cfg then signal_group pid sigkill else kill pid)
    ∷ []

-- The section at `done`, with what is told after it. Cancelling the context of the start kills a
-- child that still runs.
unfoldable pub stop_finish : (now : ℕ) → Process → Process × List Effect
unfolding release_of start_cancel
stop_finish now p =
    let (q, killed) = start_cancel p in
    (
      record q {
        health_check_ctx = cancel p.health_check_ctx;
        stop_time = now;
        state = if state_eq p.state stopping then stopped else p.state;
        cmd = false;
        pid = 0;
      },
      killed
          ++ release_of p.config
          ++ webhook stopped p.pid p.exit_code ∷ event EventType.stop p.pid p.exit_code ∷ [],
    )

-- Whether the shared socket is released, for which `Stop` locks the manager.
unfoldable pub releases : List Effect → Bool
releases [] = false
releases (release_socket ∷ told) = true
releases (_ ∷ told) = releases told

-- What comes before that.
unfoldable pub before_release : List Effect → List Effect
before_release [] = []
before_release (release_socket ∷ told) = []
before_release (t ∷ told) = t ∷ before_release told

-- What one call of `Stop` meets outside. Where no wait channel is left, no end can be seen.
pub record Halt : Type 0 where
  pub now : ℕ
  pub death : Death
  pub result : WaitResult

unfoldable pub seen : Halt → Process → Death
seen env p = if has_wait_ch p.wait_ch then env.death else never

-- While `Stop` waits, `monitor` runs if the child ends.
unfoldable pub await_exit : Halt → Death → Process → Process × List Effect
unfolding monitor
await_exit env never p = (p, [])
await_exit env _ p = monitor env.now env.result p

-- A call of `Stop` that nothing but the child's `monitor` interrupts.
unfoldable pub stop : Halt → Process → Process × List Effect
unfolding stop_begin stop_signals_sent seen await_exit stop_finish
stop env p =
    let (p1, told, child) = stop_begin p in
    elim child [
      | none ↦ (p1, told)
      | some pid ↦
          let (p2, exit_told) = await_exit env (seen env p) p1 in
          let (p3, stop_told) = stop_finish env.now p2 in
          (p3, stop_signals_sent p.config pid (seen env p) ++ exit_told ++ stop_told)
    ]
