-- ===== src/Examples/Saved.antt =====
-- Runs of the saved state and of the webhook.
use gosupervisor.Prelude.{
  ◌<◌, ◌≡◌, ◌≢◌, ◌⊎◌, ◌≤◌, refl, ap, ◌∙◌, ℕ, suc, ℤ, pos, negsuc, true, false, List, [], ◌∷◌,
  Option, none, some, arith, ◌==◌, if◌then◌else◌, Text, codes, lookup, text_eq, text_eq_iff,
}
use gosupervisor.Process.{
  Process, ProcessState, stopped, starting, running, stopping, exited, fatal,
}
use gosupervisor.Process.Webhook.{WebhookConfig, Answers, send_webhook}
use gosupervisor.Process.Webhook.Attempts.{IsTaken, pauses, send_webhook-retries}
use gosupervisor.Manager.{ProcessManager}
use gosupervisor.Manager.Saved.{PersistentState, Json, Calls, save_state, restore_state}
use gosupervisor.Manager.Saved.Roundtrip.{restore_state-save_state}
use gosupervisor.Examples.{crashed_process, running_process}

-- A format for lists of one state.
state_code : ProcessState → ℕ
state_code stopped = 0
state_code starting = 1
state_code running = 2
state_code stopping = 3
state_code exited = 4
state_code fatal = 5

state_at : ℕ → ProcessState
state_at n =
    if n == 0
    then stopped
    else if n == 1
    then starting
    else if n == 2
    then running
    else if n == 3
    then stopping
    else if n == 4
    then exited
    else fatal

state_at-state_code : (s : ProcessState) → state_at (state_code s) ≡ s
unfolding state_at state_code
state_at-state_code s = ground arith

int_codes : ℤ → Text → Text
int_codes (pos n) rest = 0 ∷ n ∷ rest
int_codes (negsuc n) rest = 1 ∷ n ∷ rest

int_at : ℕ → ℕ → ℤ
int_at sign n = if sign == 0 then pos n else negsuc n

write_states : List PersistentState → Option Text
write_states (s ∷ []) = some (
    state_code s.state
    ∷ s.pid
    ∷ s.restart_count
    ∷ s.start_retries
    ∷ s.last_restart
    ∷ int_codes s.exit_code s.process_name)
write_states _ = none

read_states : Text → Option (List PersistentState)
read_states (code ∷ pid ∷ restarts ∷ retries ∷ last ∷ sign ∷ exit ∷ name) = some (
    (record {
      process_name = name;
      state = state_at code;
      pid = pid;
      exit_code = int_at sign exit;
      restart_count = restarts;
      start_retries = retries;
      last_restart = last;
    })
    ∷ [])
read_states _ = none

read_exit :
    (code pid restarts retries last : ℕ) (z : ℤ) (name : Text)
    → read_states (code ∷ pid ∷ restarts ∷ retries ∷ last ∷ int_codes z name)
      ≡ some (
          (record {
            process_name = name;
            state = state_at code;
            pid = pid;
            exit_code = z;
            restart_count = restarts;
            start_retries = retries;
            last_restart = last;
          })
          ∷ [])
unfolding read_states int_codes int_at
read_exit code pid restarts retries last (pos n) name = refl
read_exit code pid restarts retries last (negsuc n) name = refl

reads_back :
    (states : List PersistentState) (text : Text)
    → write_states states ≡ some text
    → read_states text ≡ some states
unfolding write_states read_states
reads_back (s ∷ []) text e =
    let is : text
        ≡ state_code s.state
          ∷ s.pid
          ∷ s.restart_count
          ∷ s.start_retries
          ∷ s.last_restart
          ∷ int_codes s.exit_code s.process_name =
      cc e in
    ap read_states is
    ∙ read_exit (state_code s.state) s.pid s.restart_count s.start_retries s.last_restart
        s.exit_code s.process_name
    ∙ ap (λ x. some ((record s { state = x }) ∷ [])) (state_at-state_code s.state)
reads_back [] text e = cc e
reads_back (s ∷ t ∷ states) text e = cc e

abbrev json : Json
json = record { marshal = write_states; unmarshal = read_states }

abbrev calls : Calls
calls = record { reads = true; writes = true; renames = true }

abbrev before : ProcessManager
before = record { processes = (codes "cat", running_process) ∷ [] }

-- The same process in a new supervisor.
abbrev fresh_process : Process
fresh_process = record crashed_process { restart_count = 0; start_retries = 0; last_restart = 0 }

abbrev after_boot : ProcessManager
after_boot = record { processes = (codes "cat", fresh_process) ∷ [] }

before_named : (k : Text) (p : Process) → lookup k before.processes ≡ some p → p.name ≡ k
unfolding lookup
before_named k p h = ground (arith, h, text_eq_iff (codes "cat") k)

restore_state-save_state_example :
    let (after, e) = save_state json calls (codes "state") before [] in
    let (next, e') = restore_state json calls (codes "state") after after_boot in
    ((e ≡ none)
      × (e' ≡ none)
      × ((k : Text) (p : Process)
          → lookup k after_boot.processes ≡ some p
          → lookup k next.processes ≡ elim (lookup k before.processes) [
            | none ↦ some p
            | some old ↦ some (record p {
              restart_count = old.restart_count;
              start_retries = old.start_retries;
              last_restart = if old.last_restart == 0 then p.last_restart else old.last_restart;
            })
          ]))
    ⊎ ((e ≢ none) × (lookup (codes "state") after ≡ lookup (codes "state") []))
restore_state-save_state_example =
    restore_state-save_state json calls calls (codes "state") before after_boot [] reads_back
      (unfold lookup in (refl, tt)) before_named refl

-- The second attempt is taken.
abbrev answers : Answers
answers n = if n == 0 then some 503 else some 200

abbrev hook : WebhookConfig
hook = record { url = codes "http://a"; retries = pos 3; timeout = pos 0 }

send_webhook-retries_example :
    let r = send_webhook true answers hook in
    ((k : ℕ) × (k ≤ 3)
      × IsTaken (answers k)
      × ((j : ℕ) → j < k → ¬ IsTaken (answers j))
      × (r ≡ record { waits = pauses 1 k; posts = suc k; delivered = true }))
    ⊎ (((j : ℕ) → j ≤ 3 → ¬ IsTaken (answers j))
        × (r ≡ record { waits = pauses 1 3; posts = suc 3; delivered = false }))
send_webhook-retries_example = send_webhook-retries answers hook (unfold text_eq in refl)
