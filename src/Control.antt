-- ===== src/Control.antt =====
-- internal/socket/socket.go: the commands that come over the control socket. What each call of
-- `Start`, `Stop` or `Signal` meets outside, and the texts of numbers and errors that package fmt
-- prints, are given.
pub mod Batches
pub mod Dispatch
pub mod Words
pub mod Replies
pub mod Waiting
use gosupervisor.Prelude.{
  ℕ, zero, suc, ℤ, pos, negsuc, is_negative, Bool, true, false, ◌||◌, ◌&&◌, not, List, [], ◌∷◌,
  ◌++◌, Option, none, some, ◌==◌, if◌then◌else◌, Text, codes, text_eq, lookup, insert, length,
  contains, is_space, trim_space, decimal,
}
use gosupervisor.Events.{EventType, Event, event_snapshot}
use gosupervisor.Ring.{RingBuffer}
use gosupervisor.Process.{
  ProcessState, stopped, starting, running, stopping, exited, fatal, Process, Effect, Error,
  parse_signal,
}
use gosupervisor.Process.Start.{start}
use gosupervisor.Process.Stop.{stop}
use gosupervisor.Process.Restart.{restart, restart_begin, Go, refuse, skip, proceed}
use gosupervisor.Process.Signal.{signal}
use gosupervisor.Manager.{ProcessManager, get_process}
use gosupervisor.Manager.Batch.{Env, start_all, stop_all}
use gosupervisor.Manager.Group.{start_group, stop_group, restart_group}

-- What the commands meet outside.
pub record World : Type 0 where
  pub env : Env
  pub sent : Text → Bool
  pub sort : List Text → List Text
  pub error_text : Process → Error → Text
  pub int_text : ℤ → Text
  -- The rest of a status line: the processor time and the memory.
  pub usage : Process → Text
  pub has_fcgi_socket : Process → Bool
  pub time_text : ℕ → Text
  -- `fmt.Sscanf(s, "%d", &limit)`, where it reads one number.
  pub scan_int : Text → Option ℤ
  pub events : RingBuffer Event

-- `text` is `none` where no answer ever comes.
pub record Reply : Type 0 where
  pub text : Option Text
  pub processes : List (Text × Process)
  pub told : List (Text × List Effect)

-- A command that changes no process.
unfoldable pub answer : Text → ProcessManager → Reply
answer text pm = record { text = some text; processes = pm.processes; told = [] }

-- `strings.Fields`
unfoldable pub glue : ℕ → Text → List Text → List Text
glue c [] ws = (c ∷ []) ∷ ws
glue c (d ∷ s) [] = (c ∷ []) ∷ []
glue c (d ∷ s) (w ∷ ws) = if is_space d then (c ∷ []) ∷ w ∷ ws else (c ∷ w) ∷ ws

unfoldable pub fields : Text → List Text
unfolding glue
fields [] = []
fields (c ∷ s) = let rest = fields s in if is_space c then rest else glue c s rest

-- `strings.Join`
unfoldable pub join : Text → List Text → Text
join sep [] = []
join sep (s ∷ []) = s
join sep (s ∷ t ∷ ts) = s ++ (sep ++ join sep (t ∷ ts))

unfoldable pub is_valid_name : Text → Bool
is_valid_name name =
    not (text_eq name [])
    && (not (contains name (codes "/"))
        && (not (contains name (codes ".."))
            && (not (contains name (codes "\\")) && not (contains name (codes " ")))))

unfoldable pub state_text : ProcessState → Text
state_text stopped = codes "STOPPED"
state_text starting = codes "STARTING"
state_text running = codes "RUNNING"
state_text stopping = codes "STOPPING"
state_text exited = codes "EXITED"
state_text fatal = codes "FATAL"

unfoldable pub type_text : EventType → Text
type_text EventType.start = codes "start"
type_text EventType.stop = codes "stop"
type_text EventType.exit = codes "exit"
type_text EventType.fatal = codes "fatal"
type_text EventType.health_fail = codes "health_fail"
type_text EventType.health_restore = codes "health_restore"
type_text EventType.signal = codes "signal"

-- The second word, or nothing.
unfoldable pub second_word : List Text → Text
second_word (w ∷ v ∷ ws) = v
second_word ws = []

module _ (world : World) where
  unfoldable pub kind : Process → Text
  kind p = if world.has_fcgi_socket p then codes "(fcgi) " else []

  unfoldable pub status_text : Process → Text
  unfolding kind state_text
  status_text p =
      codes "OK "
      ++ kind p
      ++ p.name
      ++ codes " "
      ++ state_text p.state
      ++ codes " pid="
      ++ decimal p.pid
      ++ codes " exit="
      ++ world.int_text p.exit_code
      ++ codes " restarts="
      ++ decimal p.restart_count
      ++ world.usage p

  unfoldable pub status_lines : List (Text × Process) → List Text
  unfolding kind state_text
  status_lines [] = []
  status_lines ((n, p) ∷ ps) =
      (kind p
        ++ p.name
        ++ codes " "
        ++ state_text p.state
        ++ codes " pid="
        ++ decimal p.pid
        ++ codes " restarts="
        ++ decimal p.restart_count)
      ∷ status_lines ps

  unfoldable pub status : Text → ProcessManager → Reply
  unfolding status_text status_lines answer join
  status name pm =
      if not (text_eq name [])
      then elim (get_process name pm) [
        | none ↦ answer (codes "ERR process not found") pm
        | some p ↦ answer (status_text p) pm
      ]
      else (let lines = status_lines pm.processes in
          answer
            (codes "OK "
              ++ decimal (length lines)
              ++ codes " processes\n"
              ++ join (codes "\n") lines)
            pm)

  -- The guards that start, stop, restart and reload share, before `act` on the process.
  unfoldable pub on_process : (Process → Reply) → Text → ProcessManager → Reply
  unfolding answer
  on_process act name pm =
      if text_eq name []
      then answer (codes "ERR missing process name") pm
      else elim (get_process name pm) [
        | none ↦ answer (codes "ERR process not found") pm
        | some p ↦ act p
      ]

  -- The answer to a call on `p` that left `q`.
  unfoldable pub after_call :
      (ok name : Text) → ProcessManager → Process → Process × List Effect × Option Error → Reply
  after_call ok name pm p (q, told, e) = record {
    text = some (elim e [ none ↦ ok | some err ↦ codes "ERR " ++ world.error_text p err ]);
    processes = insert name q pm.processes;
    told = (name, told) ∷ [];
  }

  unfoldable pub start_command : Text → ProcessManager → Reply
  unfolding on_process after_call
  start_command name pm =
      on_process (λ p. after_call (codes "OK started") name pm p (start (world.env.launch name) p))
        name pm

  unfoldable pub stop_command : Text → ProcessManager → Reply
  unfolding on_process after_call
  stop_command name pm =
      on_process
        (λ p.
          let (q, told) = stop (world.env.halt name) p in
          after_call (codes "OK stopped") name pm p (q, told, none))
        name pm

  unfoldable pub restart_command : Text → ProcessManager → Reply
  unfolding on_process after_call
  restart_command name pm =
      on_process
        (λ p.
          after_call (codes "OK restarted") name pm p
            (restart (world.env.halt name) (world.env.launch name) p))
        name pm

  -- `p.Signal(sig)`, which changes no process.
  unfoldable pub signal_reply : (ok name : Text) (sig : ℕ) → ProcessManager → Process → Reply
  signal_reply ok name sig pm p =
      let (told, e) = signal sig (world.sent name) p in
      record {
        text = some (elim e [ none ↦ ok | some err ↦ codes "ERR " ++ world.error_text p err ]);
        processes = pm.processes;
        told = (name, told) ∷ [];
      }

  unfoldable pub reload_command : Text → ProcessManager → Reply
  unfolding on_process signal_reply answer parse_signal
  reload_command name pm =
      on_process
        (λ p. elim (parse_signal (codes "SIGHUP")) [
          | none ↦ answer (codes "ERR unknown signal: SIGHUP") pm
          | some sig ↦ signal_reply (codes "OK reload signal sent") name sig pm p
        ])
        name pm

  unfoldable pub signal_command : List Text → ProcessManager → Reply
  unfolding signal_reply answer parse_signal
  signal_command (cmd ∷ name ∷ sig_name ∷ more) pm = elim (parse_signal sig_name) [
    | none ↦ answer (codes "ERR unknown signal: " ++ sig_name) pm
    | some sig ↦ elim (get_process name pm) [
      | none ↦ answer (codes "ERR process not found") pm
      | some p ↦
          signal_reply (codes "OK signal " ++ sig_name ++ codes " sent to " ++ name) name sig pm p
    ]
  ]
  signal_command parts pm = answer (codes "ERR usage: signal <name> <signal>") pm
