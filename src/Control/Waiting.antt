-- ===== src/Control/Waiting.antt =====
-- internal/socket/socket.go: when `restart-all` waits for ever.
use gosupervisor.Prelude.{
  ◌≡◌, ◌↔◌, ◌⊎◌, inl, inr, refl, ap, sym, ◌∙◌, Bool, true, false, ◌&&◌, not, List, [], ◌∷◌, none,
  some, arith, Text, codes, text_eq, text_eq_iff, text_eq_refl, lookup, IsMap, Bool-cases,
}
use gosupervisor.Process.{Process, stopped, running, exited, state_eq}
use gosupervisor.Process.Restart.{restart_begin, proceed}
use gosupervisor.Process.Stop.{Halt, stop, releases}
use gosupervisor.Process.Stop.Outcome.{stop-releases}
use gosupervisor.Manager.{ProcessManager}
use gosupervisor.Control.{World, fields, glue, second_word}
use gosupervisor.Control.Batches.{
  RwMutex, free, r_lock, can_lock, restart_waits, restart_each, restart_all,
}
use gosupervisor.Control.Dispatch.{dispatch, handle_words, handle_command}

-- A process with a shared socket that a restart would stop and start.
abbrev pub IsStuck : Process → Type 0
IsStuck p =
    (text_eq p.config.socket [] ≡ false)
    × ((p.state ≡ running) ⊎ (p.state ≡ stopped) ⊎ (p.state ≡ exited))

-- The state of the lock under which the command calls `Restart`.
abbrev held : RwMutex
held = r_lock free

reaches_stop : Process → Bool
reaches_stop p = elim (restart_begin p).1 [ proceed ↦ true | _ ↦ false ]

begin_keeps : (p : Process) → (restart_begin p).0.config ≡ p.config
unfolding restart_begin state_eq
begin_keeps p = ground arith

reaches_iff :
    (p : Process)
    → (reaches_stop p ≡ true) ↔ ((p.state ≡ running) ⊎ (p.state ≡ stopped) ⊎ (p.state ≡ exited))
unfolding reaches_stop restart_begin state_eq
reaches_iff p = ground arith

waits_lem :
    (halt : Halt) (p : Process)
    → restart_waits held halt p ≡ (reaches_stop p && releases (stop halt (restart_begin p).0).1)
unfolding restart_waits reaches_stop r_lock can_lock
waits_lem halt p = ground arith

waits_iff : (halt : Halt) (p : Process) → (restart_waits held halt p ≡ true) ↔ IsStuck p
waits_iff halt p =
    let socket =
      stop-releases halt (restart_begin p).0
      ∙ ap (λ cfg. not (text_eq cfg.socket [])) (begin_keeps p) in
    ground (arith, waits_lem halt p, socket, reaches_iff p)

find_stuck :
    (world : World) (ps : List (Text × Process))
    → IsMap ps
    → (restart_each world held ps).waits ≡ true
    → (k : Text) × (p : Process) × (lookup k ps ≡ some p)
      × (restart_waits held (world.env.halt k) p ≡ true)
unfolding restart_each lookup
find_stuck world [] map h = cc h
find_stuck world ((n, p) ∷ ps) map h = elim (Bool-cases (restart_waits held (world.env.halt n) p)) [
  | inl e ↦ (n, p, (rw (text_eq_refl n) refl), e)
  | inr e ↦
      let (k, q, there, locks) = find_stuck world ps map.1 (ground (arith, h, e)) in
      (
        k,
        q,
        ground (
          arith,
          there,
          map.0,
          text_eq_iff n k,
          λ (s : text_eq n k ≡ true). ap (λ m. lookup m ps) ((text_eq_iff n k).0 s),
        ),
        locks,
      )
]

stuck_waits :
    (world : World) (ps : List (Text × Process)) (k : Text) (p : Process)
    → lookup k ps ≡ some p
    → restart_waits held (world.env.halt k) p ≡ true
    → (restart_each world held ps).waits ≡ true
unfolding restart_each lookup
stuck_waits world [] k p h e = cc h
stuck_waits world ((n, q) ∷ ps) k p h e = elim (Bool-cases (text_eq n k)) [
  | inl same ↦
      let is : q ≡ p = ground (arith, h, same) in
      ground (
        arith,
        ap (restart_waits held (world.env.halt k)) is,
        ap (λ m. restart_waits held (world.env.halt m) q) ((text_eq_iff n k).0 same),
        e,
      )
  | inr other ↦ ground (arith, stuck_waits world ps k p (ground (arith, h, other)) e)
]

restart_all_line :
    (world : World) (pm : ProcessManager)
    → handle_command world (codes "restart-all") pm ≡ restart_all world pm
unfolding handle_command handle_words dispatch fields glue second_word text_eq
restart_all_line world pm = refl

no_answer :
    (world : World) (pm : ProcessManager)
    → ((restart_all world pm).text ≡ none) ↔ ((restart_each world held pm.processes).waits ≡ true)
unfolding restart_all
no_answer world pm = ground arith

-- Where each process stands once, the command `restart-all` never answers exactly if some process
-- with a shared socket is RUNNING, STOPPED or EXITED: its restart waits for the lock of the manager,
-- which the command itself holds.
pub handle_command-waits :
    (world : World) (pm : ProcessManager)
    → IsMap pm.processes
    → ((handle_command world (codes "restart-all") pm).text ≡ none)
      ↔ ((k : Text) × (p : Process) × (lookup k pm.processes ≡ some p) × IsStuck p)
handle_command-waits world pm map =
    let e = ap (λ r. r.text) (restart_all_line world pm) in
    (
      λ h.
          let (k, p, there, locks) =
            find_stuck world pm.processes map ((no_answer world pm).0 (sym e ∙ h)) in
          (k, p, there, (waits_iff (world.env.halt k) p).0 locks),
      λ (k, p, there, stuck).
          e
          ∙ (no_answer world pm).1
              (stuck_waits world pm.processes k p there ((waits_iff (world.env.halt k) p).1 stuck)),
    )
