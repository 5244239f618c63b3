-- ===== src/Process/Restart.antt =====
-- internal/process/process.go: `Restart`.
pub mod Outcome
use gosupervisor.Prelude.{
  ℕ, Bool, true, false, ◌||◌, List, [], ◌∷◌, ◌++◌, Option, none, some, if◌then◌else◌,
}
use gosupervisor.Process.{
  ProcessState, starting, running, stopping, fatal, state_eq, Process, Effect, Error, is_fatal,
}
use gosupervisor.Process.Start.{Launch, start}
use gosupervisor.Process.Stop.{Halt, stop}

pub data Go : Type 0 where
  refuse skip proceed : Go

-- The first section.
unfoldable pub restart_begin : Process → Process × Go
restart_begin p =
    if state_eq p.state fatal
    then (p, refuse)
    else if state_eq p.state stopping || state_eq p.state starting
    then (p, skip)
    else if state_eq p.state running
    then (record p { state = stopping }, proceed)
    else (p, proceed)

-- The section between `Stop` and `Start`: whether a start is still to be made.
unfoldable pub restart_recheck : Process → Bool
restart_recheck p = if state_eq p.state running || state_eq p.state starting then false else true

unfoldable pub restart_after_stop :
    Launch → Process → List Effect → Process × List Effect × Option Error
unfolding restart_recheck start
restart_after_stop launch p told =
    let (q, started, e) = start launch p in
    if restart_recheck p then (q, told ++ started, e) else (p, told, none)

-- A call of `Restart` that nothing but the child's `monitor` interrupts. `Stop` returns no error.
unfoldable pub restart : Halt → Launch → Process → Process × List Effect × Option Error
unfolding restart_begin restart_after_stop stop
restart halt launch p =
    let (p1, go) = restart_begin p in
    let (p2, told) = stop halt p1 in
    elim go [
      | refuse ↦ (p1, [], some is_fatal)
      | skip ↦ (p1, [], none)
      | proceed ↦ restart_after_stop launch p2 told
    ]
