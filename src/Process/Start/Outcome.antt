-- ===== src/Process/Start/Outcome.antt =====
-- internal/process/process.go: what a call of `Start` leaves behind, on every branch.
use mathlib.Core.List.{append-nil}
use gosupervisor.Prelude.{
  inl, inr, text_eq, ℕ, ◌+◌, ◌≡◌, ◌⊎◌, ◌≢◌, ◌∙◌, ap, sym, subst, pos, true, false, List, [], ◌∷◌,
  ◌++◌, Option, none, some, arith, ltb, Bool-cases, if◌then◌else◌,
}
use gosupervisor.Events.{EventType}
use gosupervisor.Process.{
  running, exited, state_eq, Process, Effect, webhook, event, already_running, already_starting,
  has_child, Error,
}
use gosupervisor.Process.Policy.{add_restart_timestamp}
use gosupervisor.Process.Start.{Launch, start, start_check, start_wait, start_ready}
use gosupervisor.Process.Start.Waiting.{
  old_told, state_then, Waited, IsStart, is_start, start_again, then_lem, no_child_lem, started_lem,
  wait_keeps,
}
use gosupervisor.Process.Start.Ready.{
  CanAttach, IsIdle, IsUp, IsBusy, state_cases, ready_refused, ready_outcome, ready_keeps,
}

ready-IsUp :
    (env : Launch) (pid : ℕ) (p q ready : Process) (before : List Effect)
    → Waited env p ready before
    → q ≡ (start_ready env ready).0
    → IsUp env pid ready (start_ready env ready).0
    → IsUp env pid p q
ready-IsUp env pid p q ready before w final up = record {
  is_running = ap (λ q. q.state) final ∙ up.is_running;
  has_cmd = ap (λ q. q.cmd) final ∙ up.has_cmd;
  new_pid = ap (λ q. q.pid) final ∙ up.new_pid;
  since = ap (λ q. q.start_time) final ∙ up.since;
  one_more_try = ap (λ q. q.start_retries) final ∙ up.one_more_try ∙ ap (λ n. n + 1) w.same_tries;
  counted =
      ap (λ q. q.restart_count) final
      ∙ up.counted
      ∙ ap (λ n. if ltb 0 n then ready.restart_count + 1 else ready.restart_count) w.same_pid
      ∙ ap (λ n. if ltb 0 p.pid then n + 1 else n) w.same_count;
  not_yet_healthy = (
    ap (λ q. q.healthy) final ∙ up.not_yet_healthy.0,
    ap (λ q. q.health_check_failures) final ∙ up.not_yet_healthy.1,
  );
  same_flag = ap (λ q. q.health_check_restart_fired) final ∙ up.same_flag ∙ w.same_fired;
  logged =
      ap (λ q. q.restart_timestamps) final
      ∙ up.logged
      ∙ ap (λ ts. add_restart_timestamp env.now ready.config.restart_window_secs ts) w.same_log
      ∙ ap (λ c. add_restart_timestamp env.now c.restart_window_secs p.restart_timestamps)
          w.same_config;
}

busy_result :
    (env : Launch) (p q : Process) (told : List Effect) (e : Option Error)
    → IsStart env p q told e
    → p.state ≢ running
    → IsBusy (state_then p)
    → (e ≡ some already_starting)
      × (told ≡ old_told env p)
      × (q.state ≡ p.state)
      × (q.cmd ≡ p.cmd)
      × (q.pid ≡ p.pid)
      × (q.start_retries ≡ p.start_retries)
busy_result env p q told e s down busy =
    let same = ready_refused env s.ready (ground (arith, s.wait.now_state, busy)) in
    let is_ready : q ≡ s.ready = s.final ∙ ap (λ r. r.0) same in
    (
      s.result ∙ ap (λ r. r.2) same,
      s.said ∙ ap (λ r. s.before ++ r.1) same ∙ append-nil s.before ∙ s.wait.all_told,
      ap (λ q. q.state) is_ready ∙ s.wait.now_state ∙ (then_lem p down).1 (ground (arith, busy)),
      ap (λ q. q.cmd) is_ready ∙ s.wait.same_cmd,
      ap (λ q. q.pid) is_ready ∙ s.wait.same_pid,
      ap (λ q. q.start_retries) is_ready ∙ s.wait.same_tries,
    )

idle_result :
    (env : Launch) (p q : Process) (told : List Effect) (e : Option Error)
    → IsStart env p q told e
    → IsIdle (state_then p)
    → ((pid : ℕ) × (env.user_ok ≡ true)
        × CanAttach env p
        × (env.child ≡ some pid)
        × (e ≡ none)
        × (told
            ≡ old_told env p
              ++ webhook running pid (pos 0) ∷ event EventType.start pid (pos 0) ∷ [])
        × IsUp env pid p q)
      ⊎ (((env.user_ok ≡ false)
            ⊎ ((text_eq p.config.socket [] ≡ false) × (env.socket_ok ≡ false))
            ⊎ (env.child ≡ none))
          × (e ≢ none)
          × (told ≡ old_told env p)
          × (q.state ≡ exited)
          × (q.start_retries ≡ p.start_retries + 1))
idle_result env p q told e s idle =
    let calm : IsIdle s.ready.state = ground (arith, s.wait.now_state, idle) in
    elim (ready_outcome env s.ready calm) [
      | inl (pid, known, attach, forked, ok, said, up) ↦ inl (
        pid,
        known,
        subst (λ cfg. (text_eq cfg.socket [] ≡ true) ⊎ (env.socket_ok ≡ true)) s.wait.same_config
            attach,
        forked,
        s.result ∙ ok,
        s.said
            ∙ ap (λ t. s.before ++ t) said
            ∙ ap (λ t. t ++ webhook running pid (pos 0) ∷ event EventType.start pid (pos 0) ∷ [])
                s.wait.all_told,
        ready-IsUp env pid p q s.ready s.before s.wait s.final up,
      )
      | inr (why, bad, silent, ended, more) ↦ inr (
        subst
            (λ cfg.
              (env.user_ok ≡ false)
              ⊎ ((text_eq cfg.socket [] ≡ false) × (env.socket_ok ≡ false))
              ⊎ (env.child ≡ none))
            s.wait.same_config why,
        λ n. bad (sym s.result ∙ n),
        s.said ∙ ap (λ t. s.before ++ t) silent ∙ append-nil s.before ∙ s.wait.all_told,
        ap (λ q. q.state) s.final ∙ ended,
        ap (λ q. q.start_retries) s.final ∙ more ∙ ap (λ n. n + 1) s.wait.same_tries,
      )
    ]

-- A start that meets no obstacle after its wait.
pub start-IsUp :
    (env : Launch) (p : Process) (pid : ℕ)
    → p.state ≢ running
    → IsIdle (state_then p)
    → env.user_ok ≡ true
    → CanAttach env p
    → env.child ≡ some pid
    → let (q, told, e) = start env p in
      (e ≡ none)
      × (told
          ≡ old_told env p ++ webhook running pid (pos 0) ∷ event EventType.start pid (pos 0) ∷ [])
      × IsUp env pid p q
start-IsUp env p pid down idle known attach forked =
    let (q, told, e) = start env p in
    elim (idle_result env p q told e (is_start env p down) idle) [
      | inl (n, _, _, is, ok, said, up) ↦
          let same : n ≡ pid = ground (arith, is, forked) in
          (
            ok,
            subst
                (λ n.
                  told
                  ≡ old_told env p
                    ++ webhook running n (pos 0) ∷ event EventType.start n (pos 0) ∷ [])
                same said,
            subst (λ n. IsUp env n p q) same up,
          )
      | inr (inl unknown, _, _, _, _) ↦ absurd (ground (arith, unknown, known))
      | inr (inr (inl (some_socket, refused)), _, _, _, _) ↦
          absurd (ground (arith, some_socket, refused, attach))
      | inr (inr (inr gone), _, _, _, _) ↦ absurd (ground (arith, gone, forked))
    ]

-- A start of a process without a running child, in a state in which a start is not refused.
pub start_outcome :
    (env : Launch) (p : Process)
    → IsIdle p.state
    → has_child p ≡ false
    → let (q, told, e) = start env p in
      ((pid : ℕ) × (e ≡ none)
        × (told ≡ webhook running pid (pos 0) ∷ event EventType.start pid (pos 0) ∷ [])
        × IsUp env pid p q)
      ⊎ ((e ≢ none) × (q.state ≡ exited) × (q.start_retries ≡ p.start_retries + 1))
start_outcome env p idle alone =
    let (q, told, e) = start env p in
    let (silent, same) = no_child_lem env p alone in
    elim (idle_result env p q told e (is_start env p idle.0) (ground (arith, same, idle))) [
      | inl (pid, _, _, _, ok, said, up) ↦ inl (
        pid,
        ok,
        said
            ∙ ap (λ t. t ++ webhook running pid (pos 0) ∷ event EventType.start pid (pos 0) ∷ [])
                silent,
        up,
      )
      | inr (_, bad, _, ended, more) ↦ inr (bad, ended, more)
    ]

-- What such a start leaves alone, on every branch.
pub start_keeps :
    (env : Launch) (p : Process)
    → p.state ≢ running
    → has_child p ≡ false
    → let q = (start env p).0 in
      (q.config ≡ p.config)
      × (q.exit_code ≡ p.exit_code)
      × (q.health_check_restart_fired ≡ p.health_check_restart_fired)
      × ((q.state ≡ exited) → has_child q ≡ false)
start_keeps env p down alone =
    let r = (start_wait env (start_check p).0).0 in
    let (config, code, fired, none_there) = wait_keeps env p alone in
    let (config', code', fired', after) = ready_keeps env r in
    let same : (start env p).0 ≡ (start_ready env r).0 = ap (λ r. r.0) (started_lem env p down) in
    (
      ap (λ q. q.config) same ∙ config' ∙ config,
      ap (λ q. q.exit_code) same ∙ code' ∙ code,
      ap (λ q. q.health_check_restart_fired) same ∙ fired' ∙ fired,
      λ e. ap has_child same ∙ after none_there (sym (ap (λ q. q.state) same) ∙ e),
    )

-- A start that only the `monitor` it waits for interrupts. One of a RUNNING process is refused,
-- changes nothing and tells nothing. On any other, if its last child still runs, that is killed,
-- where its context is not yet cancelled, and the start waits for its end, which leaves the process
-- EXITED and tells the exit, unless the process is STOPPING. If the process is then STARTING or
-- STOPPING, the start is refused, and the state, the command, the number and the tries stay.
-- Otherwise it succeeds exactly if the user is known, no configured socket is refused and the child
-- is forked: then the process is RUNNING with the new child and one more try is counted, and the
-- start is told to the webhook and as an event. Else the process is EXITED, with an error, nothing
-- more is told, and the try is counted as well.
pub start_branches :
    (env : Launch) (p : Process)
    → let (q, told, e) = start env p in
      ((p.state ≡ running) × (q ≡ p) × (told ≡ []) × (e ≡ some already_running))
      ⊎ ((p.state ≢ running)
          × IsBusy (state_then p)
          × (e ≡ some already_starting)
          × (told ≡ old_told env p)
          × (q.state ≡ p.state)
          × (q.cmd ≡ p.cmd)
          × (q.pid ≡ p.pid)
          × (q.start_retries ≡ p.start_retries))
      ⊎ (IsIdle (state_then p)
          × ((pid : ℕ) × (env.user_ok ≡ true)
              × CanAttach env p
              × (env.child ≡ some pid)
              × (e ≡ none)
              × (told
                  ≡ old_told env p
                    ++ webhook running pid (pos 0) ∷ event EventType.start pid (pos 0) ∷ [])
              × IsUp env pid p q))
      ⊎ (IsIdle (state_then p)
          × ((env.user_ok ≡ false)
              ⊎ ((text_eq p.config.socket [] ≡ false) × (env.socket_ok ≡ false))
              ⊎ (env.child ≡ none))
          × (e ≢ none)
          × (told ≡ old_told env p)
          × (q.state ≡ exited)
          × (q.start_retries ≡ p.start_retries + 1))
start_branches env p = elim (Bool-cases (state_eq p.state running)) [
  | inl on ↦
      let up : p.state ≡ running = unfold state_eq in ground (arith, on) in
      let r = start_again env p up in inl (up, ap (λ r. r.0) r, ap (λ r. r.1) r, ap (λ r. r.2) r)
  | inr off ↦
      let down : p.state ≢ running = unfold state_eq in ground (arith, off) in
      let (q, told, e) = start env p in
      let s = is_start env p down in
      elim (state_cases (state_then p)) [
        | inl up ↦ absurd ((then_lem p down).0 up)
        | inr (inl busy) ↦
            let (err, said, state, cmd, pid, tries) = busy_result env p q told e s down busy in
            inr (inl (down, busy, err, said, state, cmd, pid, tries))
        | inr (inr idle) ↦ elim (idle_result env p q told e s idle) [
          | inl up ↦ inr (inr (inl (idle, up)))
          | inr (why, bad, said, ended, tries) ↦
              inr (inr (inr (idle, why, bad, said, ended, tries)))
        ]
      ]
]
