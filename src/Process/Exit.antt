-- ===== src/Process/Exit.antt =====
-- internal/process/process.go: `monitor`, which waits for the child.
use gosupervisor.Events.{EventType}
use gosupervisor.Prelude.{if◌then◌else◌, ℤ, ℕ, List, [], ◌∷◌, pos, negsuc}
use gosupervisor.Process.{
  stopping, exited, state_eq, cancel, nil, closed, Process, Effect, webhook, event,
}

-- What `cmd.Wait` returns: no error, an exit error with its code, or another error.
pub data WaitResult : Type 0 where
  clean failed : WaitResult
  exit_error : ℤ → WaitResult

unfoldable pub exit_code_of : WaitResult → ℤ
exit_code_of clean = pos 0
exit_code_of (exit_error code) = code
exit_code_of failed = negsuc 0

-- The first section: the resource monitor of this start is told to end.
unfoldable pub monitor_cancel : Process → Process
monitor_cancel p = record p { start_ctx = cancel p.start_ctx }

-- The second section, with what is told after it.
unfoldable pub monitor_exit : (now : ℕ) → ℤ → Process → Process × List Effect
monitor_exit now code p =
    let state' = if state_eq p.state stopping then p.state else exited in
    (
      record p { wait_ch = nil; stop_time = now; exit_code = code; state = state' },
      if state_eq state' exited
          then webhook exited p.pid code ∷ event EventType.exit p.pid code ∷ []
          else [],
    )

-- The deferred `close(p.monitorDone)`.
unfoldable pub monitor_end : Process → Process
monitor_end p = record p { monitor_done = closed }

-- `monitor` as a whole, if nothing interrupts it.
unfoldable pub monitor : (now : ℕ) → WaitResult → Process → Process × List Effect
unfolding exit_code_of monitor_cancel monitor_exit monitor_end
monitor now result p =
    let (q, told) = monitor_exit now (exit_code_of result) (monitor_cancel p) in
    (monitor_end q, told)
