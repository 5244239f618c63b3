-- ===== src/Monitor/Sockets.antt =====
-- internal/process/monitor.go: how often an exited child's share of the socket is released.
use gosupervisor.Fcgi.{Os, SocketManager}
use gosupervisor.Fcgi.Counting.{IsOpen, attach_times, release, release_times, release_all-closes}
use gosupervisor.Process.{exited, state_eq, Process, Effect, release_socket}
use gosupervisor.Monitor.{check_process}
use gosupervisor.Prelude.{
  length, Text, text_eq, ℕ, suc, ◌≡◌, refl, true, false, List, [], ◌∷◌, arith,
}

-- What the effects of a section do to the shared socket.
pub apply_effects : List Effect → SocketManager → SocketManager
apply_effects [] sm = sm
apply_effects (release_socket ∷ es) sm = apply_effects es (release sm)
apply_effects (e ∷ es) sm = apply_effects es sm

-- One tick of the monitor for each time in the list, with the socket that the process shares.
pub ticks : List ℕ → Process → SocketManager → Process × SocketManager
ticks [] p sm = (p, sm)
ticks (now ∷ nows) p sm =
    let (q, told, task) = check_process now p in ticks nows q (apply_effects told sm)

module _ (p : Process) (ended : p.state ≡ exited) (left : p.config.auto_restart ≡ false)
    (shares : text_eq p.config.socket [] ≡ false) where
  tick_releases :
      (now : ℕ) → ((check_process now p).0 ≡ p) × ((check_process now p).1 ≡ release_socket ∷ [])
  unfolding check_process state_eq
  tick_releases now = ground arith

  ticks_release :
      (nows : List ℕ) (sm : SocketManager) → ticks nows p sm ≡ (p, release_times (length nows) sm)
  unfolding ticks apply_effects release_times
  ticks_release [] sm = refl
  ticks_release (now ∷ nows) sm =
      let (same, told) = tick_releases now in
      rw (same, told, apply_effects) (ticks_release nows (release sm))

-- An EXITED process that does not restart automatically is not changed by the monitor, but at every
-- tick it releases the shared socket once more: after `n + 1` ticks it has closed a socket to which
-- it and `n` other children are attached.
pub ticks-close_shared :
    (os : Os) (n : ℕ) (args : List Text) (nows : List ℕ) (p : Process) (sm : SocketManager)
    → p.state ≡ exited
    → p.config.auto_restart ≡ false
    → text_eq p.config.socket [] ≡ false
    → IsOpen os sm
    → sm.ref_count ≡ 0
    → length nows ≡ suc n
    → let (q, after) = ticks nows p (attach_times os (suc n) args sm) in
      (q ≡ p) × (after.closed ≡ true) × (after.listening ≡ false)
ticks-close_shared os n args nows p sm e a s h z size =
    let (closed, silent, _) = release_all-closes os n args sm h z in
    rw (ticks_release p e a s nows (attach_times os (suc n) args sm), size) (refl, closed, silent)
