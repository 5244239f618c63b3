-- ===== src/Control/Replies.antt =====
-- internal/socket/socket.go: what the commands for one process do and answer.
use gosupervisor.Prelude.{
  ℕ, ◌≡◌, ◌≢◌, ◌↔◌, ◌⊎◌, inl, inr, refl, ap, sym, ◌∙◌, true, false, List, [], ◌∷◌, ◌++◌, Option,
  none, some, arith, Text, codes, text_eq, lookup, insert, Option-cases,
}
use gosupervisor.Process.{Process, Effect, Error}
use gosupervisor.Process.Start.{start}
use gosupervisor.Process.Stop.{stop}
use gosupervisor.Process.Restart.{restart}
use gosupervisor.Manager.{ProcessManager, get_process}
use gosupervisor.Control.{
  World, Reply, answer, fields, is_valid_name, on_process, after_call, start_command, stop_command,
  restart_command,
}
use gosupervisor.Control.Dispatch.{handle_words, handle_command}
use gosupervisor.Control.Words.{IsSolid, fields-two, start_words, stop_words, restart_words}

-- A name that the commands accept: a word that `isValidName` lets through.
pub record IsName (name : Text) : Type 0 where
  pub solid : IsSolid name
  pub valid : is_valid_name name ≡ true

module _ (world : World) (act : Process → Reply) (name : Text) (pm : ProcessManager)
    (valid : is_valid_name name ≡ true) where
  named : text_eq name [] ≡ false
  named = let v = valid in unfold is_valid_name in ground (arith, v)

  absent :
      lookup name pm.processes ≡ none
      → on_process world act name pm ≡ answer (codes "ERR process not found") pm
  unfolding on_process get_process
  absent e = rw (named, e) refl

  present : (p : Process) → lookup name pm.processes ≡ some p → on_process world act name pm ≡ act p
  unfolding on_process get_process
  present p e = rw (named, e) refl

first_byte : Option Text → ℕ
first_byte (some (c ∷ s)) = c
first_byte _ = 0

-- An answer that begins with O is no error.
ok_apart : (ok s : Text) → some (codes "ERR " ++ s) ≢ some (79 ∷ ok)
unfolding first_byte
ok_apart ok s e = let same : 69 ≡ 79 = ap first_byte e in absurd (omega (arith, same))

-- The answer to a call says OK exactly if the call made no error.
after_call_lem :
    (world : World) (ok name : Text) (pm : ProcessManager) (p : Process)
    (r : Process × List Effect × Option Error)
    → let reply = after_call world (79 ∷ ok) name pm p r in
      (reply.processes ≡ insert name r.0 pm.processes)
      × ((reply.text ≡ some (79 ∷ ok)) ↔ (r.2 ≡ none))
unfolding after_call
after_call_lem world ok name pm p (q, told, none) = (refl, (λ _. refl, λ _. refl))
after_call_lem world ok name pm p (q, told, some err) =
    (refl, (λ e. absurd (ok_apart ok (world.error_text p err) e), λ e. cc))

line :
    (c : ℕ) (s name : Text)
    → IsSolid (c ∷ s)
    → is_valid_name name ≡ true
    → IsSolid name
    → fields ((c ∷ s) ++ 32 ∷ name) ≡ (c ∷ s) ∷ name ∷ []
unfolding is_valid_name text_eq
line c s [] h v k = cc v
line c s (d ∷ name) h v k = fields-two c s d name h k

module _ (world : World) (name : Text) (pm : ProcessManager) (is : IsName name) where
  -- What a command does where the name is missing, and where it is there.
  abbrev Does : (cmd ok : Text) → (Process → Process × List Effect × Option Error) → Type 0
  Does cmd ok call =
      (lookup name pm.processes ≡ none
        → handle_command world (cmd ++ 32 ∷ name) pm ≡ answer (codes "ERR process not found") pm)
      × ((p : Process)
          → lookup name pm.processes ≡ some p
          → ((handle_command world (cmd ++ 32 ∷ name) pm).processes
              ≡ insert name (call p).0 pm.processes)
            × (((handle_command world (cmd ++ 32 ∷ name) pm).text ≡ some ok) ↔ ((call p).2 ≡ none)))

  read :
      (c : ℕ) (s : Text) (r : Reply)
      → IsSolid (c ∷ s)
      → handle_words world ((c ∷ s) ∷ name ∷ []) pm ≡ r
      → handle_command world ((c ∷ s) ++ 32 ∷ name) pm ≡ r
  unfolding handle_command
  read c s r h e = ap (λ words. handle_words world words pm) (line c s name h is.valid is.solid) ∙ e

  does :
      (c : ℕ) (s ok : Text) (call : Process → Process × List Effect × Option Error)
      → IsSolid (c ∷ s)
      → handle_words world ((c ∷ s) ∷ name ∷ []) pm
        ≡ on_process world (λ p. after_call world (79 ∷ ok) name pm p (call p)) name pm
      → Does (c ∷ s) (79 ∷ ok) call
  does c s ok call solid words =
      let act : Process → Reply = λ p. after_call world (79 ∷ ok) name pm p (call p) in
      let e = read c s (on_process world act name pm) solid words in
      (
        λ out. e ∙ absent world act name pm is.valid out,
        λ p there.
            let now = e ∙ present world act name pm is.valid p there in
            let (left, said) = after_call_lem world ok name pm p (call p) in
            (
              ap (λ r. r.processes) now ∙ left,
              (λ t. said.0 (sym (ap (λ r. r.text) now) ∙ t), λ z. ap (λ r. r.text) now ∙ said.1 z),
            ),
      )

  start_line : Does (codes "start") (codes "OK started") (λ p. start (world.env.launch name) p)
  start_line =
      does 115 (codes "tart") (codes "K started") (λ p. start (world.env.launch name) p)
        (refl, (refl, (refl, (refl, (refl, tt)))))
        (start_words world name pm is.valid ∙ (unfold start_command in refl))

  stop_line :
      Does
        (codes "stop")
        (codes "OK stopped")
        (λ p. let (q, told) = stop (world.env.halt name) p in (q, told, none))
  stop_line =
      does 115 (codes "top") (codes "K stopped")
        (λ p. let (q, told) = stop (world.env.halt name) p in (q, told, none))
        (refl, (refl, (refl, (refl, tt))))
        (stop_words world name pm is.valid ∙ (unfold stop_command in refl))

  restart_line :
      Does
        (codes "restart")
        (codes "OK restarted")
        (λ p. restart (world.env.halt name) (world.env.launch name) p)
  restart_line =
      does 114 (codes "estart") (codes "K restarted")
        (λ p. restart (world.env.halt name) (world.env.launch name) p)
        (refl, (refl, (refl, (refl, (refl, (refl, (refl, tt)))))))
        (restart_words world name pm is.valid ∙ (unfold restart_command in refl))

-- With a name that the commands accept, `start`, `stop` and `restart` answer that there is no such
-- process and do nothing, or they start, stop and restart the one process of that name and no other,
-- and say so exactly if the call made no error.
pub handle_command-name :
    (world : World) (name : Text) (pm : ProcessManager)
    → IsName name
    → let up = handle_command world (codes "start " ++ name) pm in
      let down = handle_command world (codes "stop " ++ name) pm in
      let again = handle_command world (codes "restart " ++ name) pm in
      ((lookup name pm.processes ≡ none)
        × (up ≡ answer (codes "ERR process not found") pm)
        × (down ≡ answer (codes "ERR process not found") pm)
        × (again ≡ answer (codes "ERR process not found") pm))
      ⊎ ((p : Process) × (lookup name pm.processes ≡ some p)
          × (up.processes ≡ insert name (start (world.env.launch name) p).0 pm.processes)
          × ((up.text ≡ some (codes "OK started")) ↔ ((start (world.env.launch name) p).2 ≡ none))
          × (down.processes ≡ insert name (stop (world.env.halt name) p).0 pm.processes)
          × (down.text ≡ some (codes "OK stopped"))
          × (again.processes
              ≡ insert name
                  (restart (world.env.halt name) (world.env.launch name) p).0
                  pm.processes)
          × ((again.text ≡ some (codes "OK restarted"))
              ↔ ((restart (world.env.halt name) (world.env.launch name) p).2 ≡ none)))
handle_command-name world name pm is =
    let up = start_line world name pm is in
    let down = stop_line world name pm is in
    let again = restart_line world name pm is in
    elim (Option-cases (lookup name pm.processes)) [
      | inl e ↦ inl (e, up.0 e, down.0 e, again.0 e)
      | inr (p, e) ↦
          let (left, said) = up.1 p e in
          let (left', said') = down.1 p e in
          let (left'', said'') = again.1 p e in
          inr (p, e, left, said, left', said'.1 refl, left'', said'')
    ]
