-- ===== src/Monitor/Retries.antt =====
-- internal/process/monitor.go: a process that keeps crashing is given up.
use gosupervisor.Process.Exit.{WaitResult, exit_code_of, monitor}
use gosupervisor.Process.Policy.{code_in}
use gosupervisor.Process.Start.{start}
use gosupervisor.Process.Start.Outcome.{start_outcome, start_keeps}
use gosupervisor.Prelude.{
  Option-cases, length, exceeds, ℕ, ◌+◌, ◌≤◌, ◌≡◌, refl, ap, ◌∙◌, ◌≢◌, ◌⊎◌, inl, inr, true, false,
  none, some, List, [], ◌∷◌, arith, pos,
}
use gosupervisor.Process.{
  starting, running, stopping, exited, fatal, state_eq, ProgramConfig, Process, Error, has_child,
}
use gosupervisor.Monitor.{
  give_up, handle_exited, wake, restart_failed, Cycle, restart_goroutine, crash_cycle, crash_cycles,
}

-- A process that has been tried `tries` times: EXITED for a reason that is not expected, or FATAL.
module _ (cfg : ProgramConfig) where
  record IsCrashed (tries : ℕ) (p : Process) : Type 0 where
    same : p.config ≡ cfg
    ended : p.state ≡ exited
    unexpected : code_in p.exit_code cfg.exit_codes ≡ false
    no_restart_fired : p.health_check_restart_fired ≡ false
    tried : p.start_retries ≡ tries
    seen_to_end : has_child p ≡ false

  abbrev IsDown : ℕ → Process → Type 0
  IsDown tries p = (p.state ≡ fatal) ⊎ IsCrashed tries p

  abbrev pub Unexpected : List Cycle → Type 0
  Unexpected [] = Unit
  Unexpected (c ∷ cs) = (code_in (exit_code_of c.result) cfg.exit_codes ≡ false) × Unexpected cs

  handled :
      (now tries : ℕ) (p : Process)
      → cfg.auto_restart ≡ true
      → IsCrashed tries p
      → let (q, told, later) = handle_exited now p in
        ((later ≡ false) × (q.state ≡ fatal))
        ⊎ ((later ≡ true)
            × (exceeds tries cfg.start_retries ≡ false)
            × (q ≡ record p { state = starting }))
  unfolding handle_exited state_eq
  handled now tries p auto c = ground arith

  woken :
      (tries : ℕ) (p : Process)
      → IsCrashed tries p
      → wake (record p { state = starting }) ≡ (p, true)
  unfolding wake state_eq
  woken tries p c = ground arith

  monitored :
      (now : ℕ) (result : WaitResult) (p : Process)
      → p.state ≢ stopping
      → let q = (monitor now result p).0 in
        (q.state ≡ exited)
        × (q.exit_code ≡ exit_code_of result)
        × (q.config ≡ p.config)
        × (q.start_retries ≡ p.start_retries)
        × (q.health_check_restart_fired ≡ p.health_check_restart_fired)
        × (has_child q ≡ false)
  unfolding monitor state_eq has_child
  monitored now result p h = ground arith

  failed :
      (p : Process)
      → p.state ≡ exited
      → ((restart_failed p).0.state ≡ fatal) ⊎ ((restart_failed p).0 ≡ p)
  unfolding restart_failed
  failed p h = ground arith

  -- After a start that succeeded the child ends; after one that failed the section that follows it
  -- may give the process up.
  crashed_again :
      (c : Cycle) (tries : ℕ) (p q : Process)
      → IsCrashed tries p
      → code_in (exit_code_of c.result) cfg.exit_codes ≡ false
      → (q.config ≡ p.config)
        × (q.exit_code ≡ p.exit_code)
        × (q.health_check_restart_fired ≡ p.health_check_restart_fired)
        × ((q.state ≡ exited) → has_child q ≡ false)
      → q.start_retries ≡ p.start_retries + 1
      → ((q.state ≡ running → IsDown (tries + 1) (monitor c.ended c.result q).0)
          × (q.state ≡ exited → IsDown (tries + 1) (restart_failed q).0))
  crashed_again c tries p q crashed u (same, code, flag, gone) more =
      let ended : (r : Process) → r ≡ q → q.state ≡ exited → IsCrashed (tries + 1) r = λ r e s.
        record {
          same = cc;
          ended = cc;
          unexpected =
              ap (λ k. code_in k cfg.exit_codes) (ap (λ x. x.exit_code) e ∙ code)
              ∙ crashed.unexpected;
          no_restart_fired = cc;
          tried = cc;
          seen_to_end = ap has_child e ∙ gone s;
        } in
      (
        λ up.
            let (s, k, m, t, f, n) = monitored c.ended c.result q (λ e. cc) in
            inr (record {
              same = m ∙ same ∙ crashed.same;
              ended = s;
              unexpected = ap (λ k. code_in k cfg.exit_codes) k ∙ u;
              no_restart_fired = f ∙ flag ∙ crashed.no_restart_fired;
              tried = omega (arith, t, more, crashed.tried);
              seen_to_end = n;
            }),
        λ s. elim (failed q s) [
          | inl gone ↦ inl gone
          | inr kept ↦ inr (ended (restart_failed q).0 kept s)
        ],
      )

  goroutine_started :
      (c : Cycle) (p p1 : Process)
      → wake p ≡ (p1, true)
      → (start c.launch p1).2 ≡ none
      → restart_goroutine c p ≡ (monitor c.ended c.result (start c.launch p1).0).0
  unfolding restart_goroutine
  goroutine_started c p p1 up ok =
      let at : (wake p).0 ≡ p1 = ap (λ x. x.0) up in
      rw (restart_goroutine, up, at, ok)
        (ap (λ x. (monitor c.ended c.result (start c.launch x).0).0) at)

  goroutine_failed :
      (c : Cycle) (p p1 : Process) (e : Error)
      → wake p ≡ (p1, true)
      → (start c.launch p1).2 ≡ some e
      → restart_goroutine c p ≡ (restart_failed (start c.launch p1).0).0
  unfolding restart_goroutine
  goroutine_failed c p p1 e up bad =
      let at : (wake p).0 ≡ p1 = ap (λ x. x.0) up in
      rw (restart_goroutine, up, at, bad) (ap (λ x. (restart_failed (start c.launch x).0).0) at)

  restarted :
      (c : Cycle) (tries : ℕ) (p : Process)
      → IsCrashed tries p
      → code_in (exit_code_of c.result) cfg.exit_codes ≡ false
      → IsDown (tries + 1) (restart_goroutine c (record p { state = starting }))
  restarted c tries p crashed u =
      let up = woken tries p crashed in
      let q = (start c.launch p).0 in
      let again =
        crashed_again c tries p q crashed u
          (start_keeps c.launch p (ground arith) crashed.seen_to_end) in
      elim (start_outcome c.launch p (ground arith, ground arith, ground arith)
        crashed.seen_to_end) [
          | inl (pid, ok, _, is) ↦
              rw (goroutine_started c (record p { state = starting }) p up ok)
                ((again is.one_more_try).0 is.is_running)
          | inr (bad, ended, more) ↦ elim (Option-cases (start c.launch p).2) [
            | inl none_ ↦ absurd (bad none_)
            | inr (e, is) ↦
                rw (goroutine_failed c (record p { state = starting }) p e up is)
                  ((again more).1 ended)
          ]
        ]

  cycle_gone :
      (c : Cycle) (p : Process)
      → (handle_exited c.now p).2 ≡ false
      → crash_cycle c p ≡ (handle_exited c.now p).0
  unfolding crash_cycle
  cycle_gone c p h = rw (crash_cycle, h) refl

  cycle_again :
      (c : Cycle) (p : Process)
      → (handle_exited c.now p).2 ≡ true
      → crash_cycle c p ≡ restart_goroutine c (handle_exited c.now p).0
  unfolding crash_cycle
  cycle_again c p h = rw (crash_cycle, h) refl

  cycle_lem :
      (c : Cycle) (tries : ℕ) (p : Process)
      → cfg.auto_restart ≡ true
      → code_in (exit_code_of c.result) cfg.exit_codes ≡ false
      → IsCrashed tries p
      → ((crash_cycle c p).state ≡ fatal)
        ⊎ (exceeds tries cfg.start_retries ≡ false) × IsDown (tries + 1) (crash_cycle c p)
  cycle_lem c tries p auto u crashed = elim (handled c.now tries p auto crashed) [
    | inl (later, gone) ↦ inl (rw (cycle_gone c p later) gone)
    | inr (later, within, q) ↦
        inr (within, rw (cycle_again c p later, q) (restarted c tries p crashed u))
  ]

  fatal_stays :
      (cs : List Cycle) (p : Process) → p.state ≡ fatal → (crash_cycles cs p).state ≡ fatal
  unfolding crash_cycles crash_cycle handle_exited give_up restart_goroutine state_eq
  fatal_stays [] p h = h
  fatal_stays (c ∷ cs) p h = fatal_stays cs (crash_cycle c p) (ground arith)

  within_lem :
      (m tries : ℕ)
      → cfg.start_retries ≡ pos m
      → exceeds tries cfg.start_retries ≡ false
      → tries + 1 ≤ m + 1
  within_lem m tries limit h = ground (limit, arith)

  cycles_lem :
      (m : ℕ) (cs : List Cycle) (tries : ℕ) (p : Process)
      → cfg.auto_restart ≡ true
      → cfg.start_retries ≡ pos m
      → Unexpected cs
      → IsDown tries p
      → m + 2 ≤ tries + length cs
      → tries ≤ m + 1
      → (crash_cycles cs p).state ≡ fatal
  unfolding crash_cycles
  cycles_lem m cs tries p auto limit u (inl gone) long start = fatal_stays cs p gone
  cycles_lem m [] tries p auto limit u (inr c) long start = absurd (omega arith)
  cycles_lem m (c ∷ cs) tries p auto limit u (inr crashed) long start =
      elim (cycle_lem c tries p auto u.0 crashed) [
        | inl gone ↦ fatal_stays cs (crash_cycle c p) gone
        | inr (within, down) ↦
            cycles_lem m cs (tries + 1) (crash_cycle c p) auto limit u.1 down (omega arith)
              (within_lem m tries limit within)
      ]

-- Take a process that crashed and is EXITED, the end of its child recorded: `autorestart` is on, the retries are limited to `m`,
-- its exit code is none of the expected ones, no health check restart is on its way, and at most
-- `m + 1` tries are counted. If each restart by the monitor, undisturbed, ends in a failed start or
-- in an exit whose code is not expected either, then the process is FATAL after so many rounds that
-- these and the counted tries make at least `m + 2`.
pub crash_cycles-gives_up :
    (m : ℕ) (cs : List Cycle) (p : Process)
    → p.config.auto_restart ≡ true
    → p.config.start_retries ≡ pos m
    → p.state ≡ exited
    → has_child p ≡ false
    → code_in p.exit_code p.config.exit_codes ≡ false
    → p.health_check_restart_fired ≡ false
    → Unexpected p.config cs
    → p.start_retries ≤ m + 1
    → m + 2 ≤ p.start_retries + length cs
    → (crash_cycles cs p).state ≡ fatal
crash_cycles-gives_up m cs p auto limit ended gone code fired u few long =
    cycles_lem p.config m cs p.start_retries p auto limit u
      (inr (record {
        same = refl;
        ended = ended;
        unexpected = code;
        no_restart_fired = fired;
        tried = refl;
        seen_to_end = gone;
      }))
      long few
