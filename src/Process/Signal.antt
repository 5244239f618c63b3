-- ===== src/Process/Signal.antt =====
-- internal/process/process.go: `Signal`.
use gosupervisor.Prelude.{ℕ, pos, Bool, not, List, [], ◌∷◌, Option, none, some, if◌then◌else◌}
use gosupervisor.Events.{EventType}
use gosupervisor.Process.{
  running, state_eq, Process, Effect, event, Error, not_running, signal_failed,
}
use gosupervisor.Process.Stop.{send_to}

-- `sent` says whether the system call succeeds.
unfoldable pub signal : (sig : ℕ) (sent : Bool) → Process → List Effect × Option Error
unfolding send_to
signal sig sent p =
    if not p.cmd
    then ([], some not_running)
    else if not (state_eq p.state running)
    then ([], some not_running)
    else if sent
    then (send_to p.config p.pid sig ∷ event EventType.signal p.pid (pos 0) ∷ [], none)
    else (send_to p.config p.pid sig ∷ [], some signal_failed)
