-- ===== src/Monitor/Running.antt =====
-- internal/process/monitor.go: what a tick does to a RUNNING process.
use gosupervisor.Process.{running, state_eq, Process}
use gosupervisor.Process.Start.{Launch}
use gosupervisor.Process.Start.Ready.{IsUp}
use gosupervisor.Process.Health.{health_ticks}
use gosupervisor.Process.Health.Outcome.{failing}
use gosupervisor.Monitor.{check_running}
use gosupervisor.Prelude.{
  ◌↔◌, ◌⊎◌, replicate, is_positive, text_eq, ℕ, ◌+◌, ◌≡◌, ◌∙◌, true, false, [], arith,
}

fired_quiet :
    (now : ℕ) (p : Process) → p.health_check_restart_fired ≡ true → (check_running now p).1 ≡ false
unfolding check_running
fired_quiet now p h = ground arith

-- A health check restart is asked for only of a RUNNING process with a health check that is not
-- healthy, and once only: after any number of failed health checks no later tick asks for another.
pub check_running_once :
    (now later n : ℕ) (p : Process)
    → (check_running now p).1 ≡ true
    → (p.state ≡ running)
      × (p.healthy ≡ false)
      × (p.config.health_check_restart ≡ true)
      × ((check_running later (health_ticks (replicate n false) (check_running now p).0)).1 ≡ false)
unfolding check_running state_eq
check_running_once now later n p h = (
  ground arith,
  ground arith,
  ground arith,
  fired_quiet later (health_ticks (replicate n false) (check_running now p).0)
      ((failing n (check_running now p).0).2 ∙ ground arith),
)

-- A start leaves the process not healthy, so the first tick after a successful start asks for a
-- restart, before any health check has failed, exactly if no health check restart was asked for
-- before and one is configured, with a health check. Where `startsecs` is not positive, the tick
-- keeps the tries that the process has used.
pub check_running_fresh :
    (env : Launch) (pid now : ℕ) (p q : Process)
    → IsUp env pid p q
    → (((check_running now q).1 ≡ true) ↔ (
        (p.health_check_restart_fired ≡ false)
        × (q.config.health_check_restart ≡ true)
        × (text_eq q.config.health_check_url [] ≡ false)))
      × (q.health_check_failures ≡ 0)
      × ((is_positive q.config.start_secs ≡ true)
          ⊎ ((check_running now q).0.start_retries ≡ p.start_retries + 1))
unfolding check_running state_eq
check_running_fresh env pid now p q up = ground arith
