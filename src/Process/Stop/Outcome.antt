-- ===== src/Process/Stop/Outcome.antt =====
-- internal/process/process.go: what a call of `Stop` leaves behind, on every branch.
use gosupervisor.Prelude.{
  inl, inr, ap, ◌≡◌, ◌⊎◌, ◌≢◌, ◌∙◌, refl, ℕ, ℤ, true, false, ◌||◌, not, List, [], ◌∷◌, ◌++◌, arith,
  if◌then◌else◌, Text, codes, text_eq, lookup,
}
use gosupervisor.Process.{
  stopped, running, stopping, state_eq, ProgramConfig, Process, Effect, webhook, event, kill,
  signal_process, signal_group, release_socket, detach_socket, report_failure, nil, live, has_child,
}
use gosupervisor.Events.{EventType}
use gosupervisor.Process.Exit.{exit_code_of}
use gosupervisor.Process.Stop.{Halt, Death, in_time, forced, never, stop, graceful_signal, releases}

-- A process that has a child to be stopped.
abbrev pub HasChild : Process → Type 0
HasChild p = (p.cmd ≡ true) × ((p.state ≡ running) ⊎ (p.state ≡ stopping))

-- An uninterrupted stop always ends with the process STOPPED.
pub stop-stopped : (env : Halt) (p : Process) → (stop env p).0.state ≡ stopped
unfolding stop state_eq
stop-stopped env p = ground arith

-- When the end of the child is seen: only where there is a wait channel.
unfoldable pub seen_end : Halt → Process → Death
seen_end env p = elim p.wait_ch [ nil ↦ never | _ ↦ env.death ]

-- The exit code that a stop leaves: the child's, if its end was seen.
pub code_after : Halt → Process → ℤ
code_after env p = elim (seen_end env p) [ never ↦ p.exit_code | _ ↦ exit_code_of env.result ]

-- The number of the signal of a name, SIGTERM for an unknown one.
pub number_of : Text → ℕ
number_of name =
    if text_eq (codes "SIGTERM") name
    then 15
    else if text_eq (codes "SIGQUIT") name
    then 3
    else if text_eq (codes "SIGINT") name
    then 2
    else if text_eq (codes "SIGHUP") name
    then 1
    else if text_eq (codes "SIGUSR1") name
    then 10
    else if text_eq (codes "SIGUSR2") name
    then 12
    else if text_eq (codes "SIGKILL") name
    then 9
    else 15

-- The request to end, to the process group if either option asks for that.
pub request : ProgramConfig → (pid : ℕ) → Effect
request cfg pid =
    if cfg.stop_as_group || cfg.kills_as_group
    then signal_group pid (number_of cfg.stop_signal)
    else signal_process pid (number_of cfg.stop_signal)

-- SIGKILL, to the group or the process.
pub force : ProgramConfig → (pid : ℕ) → Effect
force cfg pid = if cfg.stop_as_group || cfg.kills_as_group then signal_group pid 9 else kill pid

-- The signals of a stop: the request, SIGKILL if the child did not end in time, and what cancelling
-- its context does to a child that was not even seen to end then.
pub signals_told : Halt → Process → List Effect
signals_told env p = elim (seen_end env p) [
  | in_time ↦ request p.config p.pid ∷ []
  | forced ↦ request p.config p.pid ∷ force p.config p.pid ∷ []
  | never ↦
      request p.config p.pid
      ∷ force p.config p.pid
      ∷ (elim p.start_ctx [ live ↦ if has_child p then kill p.pid ∷ [] else [] | _ ↦ [] ])
]

-- What a stop tells at last.
pub farewell : Halt → Process → List Effect
farewell env p =
    (if text_eq p.config.socket [] then [] else release_socket ∷ [])
    ++ webhook stopped p.pid (code_after env p) ∷ event EventType.stop p.pid (code_after env p) ∷ []

graceful_lem : (cfg : ProgramConfig) → graceful_signal cfg ≡ number_of cfg.stop_signal
unfolding graceful_signal number_of lookup
graceful_lem cfg = ground arith

child_or_none :
    (p : Process)
    → HasChild p ⊎ (((p.cmd ≡ false) ⊎ ((p.state ≢ running) × (p.state ≢ stopping))) × ¬ HasChild p)
child_or_none p = ground arith

stop-child :
    (env : Halt) (p : Process)
    → HasChild p
    → let (q, told) = stop env p in
      (q.state ≡ stopped) × (q.cmd ≡ false) × (q.pid ≡ 0) × (q.exit_code ≡ code_after env p)
unfolding stop state_eq code_after seen_end
stop-child env p h = ground arith

stop-told :
    (env : Halt) (p : Process) → HasChild p → (stop env p).1 ≡ signals_told env p ++ farewell env p
unfolding stop state_eq code_after seen_end signals_told request force farewell has_child
stop-told env p h = ground (arith, graceful_lem p.config)

-- Such a stop of any other process sends no signal: it only marks the process STOPPED and releases
-- the socket.
pub stop_no_child :
    (env : Halt) (p : Process)
    → (p.cmd ≡ false) ⊎ ((p.state ≢ running) × (p.state ≢ stopping))
    → stop env p ≡ (
      record p { state = stopped },
      if text_eq p.config.socket [] then [] else release_socket ∷ [],
    )
unfolding stop state_eq
stop_no_child env p h = ground arith

-- A stop that only the child's `monitor` interrupts, of a process that is RUNNING or STOPPING with a
-- child, leaves it STOPPED and forgets the child, and takes its exit code over if its end was seen.
-- The child, or its process group if either option asks for that, is first sent the configured
-- signal, SIGTERM for an unknown name, then SIGKILL exactly if it was not seen to end in time; one
-- that was never seen to end, and that its `monitor` still waits for, is killed once more by its
-- context, unless that was cancelled before. At last the socket is released, if there is one, and
-- the stop is told to the webhook and as an event, with the child's number. A stop of any other
-- process sends no signal: it only marks the process STOPPED and releases the socket.
pub stop_branches :
    (env : Halt) (p : Process)
    → let (q, told) = stop env p in
      (HasChild p
        × (q.state ≡ stopped)
        × (q.cmd ≡ false)
        × (q.pid ≡ 0)
        × (q.exit_code ≡ code_after env p)
        × (told ≡ signals_told env p ++ farewell env p))
      ⊎ (¬ HasChild p
          × (q ≡ record p { state = stopped })
          × (told ≡ (if text_eq p.config.socket [] then [] else release_socket ∷ [])))
stop_branches env p = elim (child_or_none p) [
  | inl child ↦
      let (state, cmd, pid, code) = stop-child env p child in
      inl (child, state, cmd, pid, code, stop-told env p child)
  | inr (bare, none_there) ↦
      let e = stop_no_child env p bare in inr (none_there, ap (λ r. r.0) e, ap (λ r. r.1) e)
]

releases-append : (xs ys : List Effect) → releases (xs ++ ys) ≡ (releases xs || releases ys)
unfolding releases
releases-append [] ys = refl
releases-append (webhook _ _ _ ∷ xs) ys = releases-append xs ys
releases-append (event _ _ _ ∷ xs) ys = releases-append xs ys
releases-append (signal_process _ _ ∷ xs) ys = releases-append xs ys
releases-append (signal_group _ _ ∷ xs) ys = releases-append xs ys
releases-append (kill _ ∷ xs) ys = releases-append xs ys
releases-append (release_socket ∷ xs) ys = refl
releases-append (detach_socket ∷ xs) ys = releases-append xs ys
releases-append (report_failure ∷ xs) ys = releases-append xs ys

releases-signals_told : (env : Halt) (p : Process) → releases (signals_told env p) ≡ false
unfolding releases signals_told request force seen_end has_child
releases-signals_told env p = ground arith

releases-farewell :
    (env : Halt) (p : Process) → releases (farewell env p) ≡ not (text_eq p.config.socket [])
unfolding releases farewell
releases-farewell env p = ground arith

releases_bare :
    (p : Process)
    → releases (if text_eq p.config.socket [] then [] else release_socket ∷ [])
      ≡ not (text_eq p.config.socket [])
unfolding releases
releases_bare p = ground arith

-- Every stop of a process with a shared socket releases it.
pub stop-releases :
    (env : Halt) (p : Process) → releases (stop env p).1 ≡ not (text_eq p.config.socket [])
stop-releases env p = elim (stop_branches env p) [
  | inl (_, _, _, _, _, told) ↦
      ap releases told
      ∙ releases-append (signals_told env p) (farewell env p)
      ∙ ap (λ b. b || releases (farewell env p)) (releases-signals_told env p)
      ∙ releases-farewell env p
  | inr (_, _, told) ↦ ap releases told ∙ releases_bare p
]
