-- ===== src/Fcgi/Counting.antt =====
-- internal/fcgi/socket.go: how long the shared socket lives. The callers in package `process` close
-- it when `Detach` says that the last child is gone.
use gosupervisor.Prelude.{
  if◌then◌else◌, Text, ℕ, zero, suc, ◌+◌, ◌≡◌, refl, ap, ◌∙◌, true, false, none, some, List, arith,
}
use gosupervisor.Fcgi.{Os, SocketManager, not_listening, wrap_command, attach, detach, close}

-- `if sm.Detach() { sm.Close() }`, as the callers write it.
unfoldable pub release : SocketManager → SocketManager
release sm = let (sm', last) = detach sm in if last then close sm' else sm'

-- `n` children are attached, one after another; then `k` are released.
unfoldable pub attach_times : Os → ℕ → List Text → SocketManager → SocketManager
attach_times os zero args sm = sm
attach_times os (suc n) args sm = attach_times os n args (attach os args sm).0

unfoldable pub release_times : ℕ → SocketManager → SocketManager
release_times zero sm = sm
release_times (suc k) sm = release_times k (release sm)

-- A socket that children can be attached to.
pub record IsOpen (os : Os) (sm : SocketManager) : Type 0 where
  pub listens : sm.listening ≡ true
  pub live : sm.closed ≡ false
  pub has_file : os.listener_file sm.network sm.address ≡ true

attach-IsOpen :
    (os : Os) (args : List Text) (sm : SocketManager)
    → IsOpen os sm
    → attach os args sm ≡ (record sm { ref_count = sm.ref_count + 1 }, none, wrap_command args)
unfolding attach
attach-IsOpen os args sm h = ground arith

release_more :
    (sm : SocketManager) (n : ℕ)
    → sm.ref_count ≡ suc (suc n)
    → release sm ≡ record sm { ref_count = suc n }
unfolding release detach
release_more sm n h = ground arith

release_last :
    (sm : SocketManager)
    → sm.ref_count ≡ 1
    → sm.closed ≡ false
    → release sm ≡ record sm { ref_count = 0; closed = true; listening = false }
unfolding release detach close
release_last sm h c = ground arith

release_times_snoc :
    (k : ℕ) (sm : SocketManager) → release_times (suc k) sm ≡ release (release_times k sm)
unfolding release_times
release_times_snoc zero sm = refl
release_times_snoc (suc k) sm = release_times_snoc k (release sm)

attach_times_lem :
    (os : Os) (n : ℕ) (args : List Text) (sm : SocketManager)
    → IsOpen os sm
    → attach_times os n args sm ≡ record sm { ref_count = sm.ref_count + n }
unfolding attach_times
attach_times_lem os zero args sm h = ground arith
attach_times_lem os (suc n) args sm h = rw (attach-IsOpen os args sm h) (
    attach_times_lem os n args (record sm { ref_count = sm.ref_count + 1 })
      (record { listens = h.listens; live = h.live; has_file = h.has_file })
    ∙ ap (λ k. record sm { ref_count = k }) (omega arith))

release_times_lem :
    (k n : ℕ) (sm : SocketManager)
    → sm.ref_count ≡ k + suc n
    → release_times k sm ≡ record sm { ref_count = suc n }
unfolding release_times
release_times_lem zero n sm h = ground arith
release_times_lem (suc k) n sm h =
    rw (release_more sm (k + n) (omega arith))
      (release_times_lem k n (record sm { ref_count = suc (k + n) }) (omega arith))

-- With `k + 1 + n` children on a socket that had none, the first `k` releases only count down: the
-- socket still listens, further children can be attached, and `n + 1` are counted.
pub release-keeps_IsOpen :
    (os : Os) (k n : ℕ) (args : List Text) (sm : SocketManager)
    → IsOpen os sm
    → sm.ref_count ≡ 0
    → let sm' = release_times k (attach_times os (k + suc n) args sm) in
      IsOpen os sm' × (sm'.ref_count ≡ suc n) × ((attach os args sm').1 ≡ none)
release-keeps_IsOpen os k n args sm h z =
    let now = record sm { ref_count = suc n } in
    let e : release_times k (attach_times os (k + suc n) args sm) ≡ now =
      rw (attach_times_lem os (k + suc n) args sm h) (
        release_times_lem k n (record sm { ref_count = sm.ref_count + (k + suc n) })
          (omega arith)) in
    let open_now : IsOpen os now = record {
      listens = h.listens;
      live = h.live;
      has_file = h.has_file;
    } in
    rw e (open_now, refl, ap (λ r. r.1) (attach-IsOpen os args now open_now))

-- The release that answers the last attached child closes the socket, and from then on no child can
-- be attached to it.
pub release_all-closes :
    (os : Os) (n : ℕ) (args : List Text) (sm : SocketManager)
    → IsOpen os sm
    → sm.ref_count ≡ 0
    → let sm' = release_times (suc n) (attach_times os (suc n) args sm) in
      (sm'.closed ≡ true)
      × (sm'.listening ≡ false)
      × (attach os args sm' ≡ (sm', some not_listening, args))
release_all-closes os n args sm h z =
    let sm' = record sm { ref_count = 0; closed = true; listening = false } in
    let e : release_times (suc n) (attach_times os (suc n) args sm) ≡ sm' =
      rw (attach_times_lem os (suc n) args sm h) (
        rw
          (
            release_times_snoc n (record sm { ref_count = sm.ref_count + suc n }),
            release_times_lem n 0 (record sm { ref_count = sm.ref_count + suc n }) (omega arith),
          )
          (release_last (record sm { ref_count = 1 }) refl h.live)) in
    rw e (refl, refl, unfold attach in refl)

-- With `k + 1 + n` children on a socket that had none, the first `k` releases only count down: the
-- socket still listens, further children can be attached, and `n + 1` are counted. The release that
-- answers the last attached child closes the socket, and from then on no child can be attached to
-- it.
pub release-counts :
    (os : Os) (k n : ℕ) (args : List Text) (sm : SocketManager)
    → IsOpen os sm
    → sm.ref_count ≡ 0
    → let first = release_times k (attach_times os (k + suc n) args sm) in
      let all = release_times (k + suc n) (attach_times os (k + suc n) args sm) in
      (IsOpen os first × (first.ref_count ≡ suc n) × ((attach os args first).1 ≡ none))
      × ((all.closed ≡ true)
          × (all.listening ≡ false)
          × (attach os args all ≡ (all, some not_listening, args)))
release-counts os k n args sm h z =
    let e : k + suc n ≡ suc (k + n) = omega arith in
    (release-keeps_IsOpen os k n args sm h z, rw e (release_all-closes os (k + n) args sm h z))
