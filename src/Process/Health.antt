-- ===== src/Process/Health.antt =====
-- internal/process/process.go: one tick of `runHealthCheck`, after the check was made.
pub mod Outcome
use gosupervisor.Prelude.{
  ℕ, suc, ◌+◌, ℤ, pos, reaches, Bool, true, false, not, List, [], ◌∷◌, ◌++◌, if◌then◌else◌,
}
use gosupervisor.Events.{EventType}
use gosupervisor.Process.{ProcessState, running, Process, Effect, webhook, event, report_failure}

-- The section that takes in the check's result `ok`, with what is told after it.
unfoldable pub health_tick : (ok : Bool) → Process → Process × List Effect
health_tick true p = (
  record p { health_check_failures = 0; healthy = true; health_check_restart_fired = false },
  if p.healthy
      then []
      else event EventType.health_restore p.pid (pos 0) ∷ webhook running p.pid (pos 0) ∷ [],
)
health_tick false p =
    let failures = p.health_check_failures + 1 in
    if reaches failures p.config.health_check_unhealthy_threshold
    then (
      record p { health_check_failures = failures; healthy = false },
      (if p.healthy
            then event EventType.health_fail p.pid (pos 0) ∷ webhook running p.pid (pos 0) ∷ []
            else [])
          ++ report_failure ∷ [],
    )
    else (record p { health_check_failures = failures }, report_failure ∷ [])

unfoldable pub health_ticks : List Bool → Process → Process
unfolding health_tick
health_ticks [] p = p
health_ticks (ok ∷ oks) p = health_ticks oks (health_tick ok p).0
