-- ===== src/Control/Dispatch.antt =====
-- internal/socket/socket.go: `handleCommand` and the loop of `handleConn`.
use gosupervisor.Prelude.{
  ◌||◌, ◌&&◌, not, List, [], ◌∷◌, ◌++◌, none, some, if◌then◌else◌, Text, codes, text_eq, trim_space,
}
use gosupervisor.Manager.{ProcessManager}
use gosupervisor.Control.{
  World, Reply, answer, fields, is_valid_name, second_word, status, start_command, stop_command,
  restart_command, reload_command, signal_command,
}
use gosupervisor.Control.Batches.{
  restart_all, start_all_command, stop_all_command, group_start, group_stop, group_restart,
  events_command,
}

unfoldable pub help_text : Text
help_text =
    codes
      "OK commands: status [name], start <name>, stop <name>, restart <name>, signal <name> <sig>, "
    ++ codes "start-all, stop-all, restart-all, group-start <group>, group-stop <group>, "
    ++ codes "group-restart <group>, events [N], help, quit"

module _ (world : World) where
  -- The switch on the first word.
  unfoldable pub dispatch : Text → List Text → Text → ProcessManager → Reply
  unfolding answer help_text
  dispatch cmd parts name pm =
      if text_eq cmd (codes "status")
      then status world name pm
      else if text_eq cmd (codes "start")
      then start_command world name pm
      else if text_eq cmd (codes "stop")
      then stop_command world name pm
      else if text_eq cmd (codes "restart")
      then restart_command world name pm
      else if text_eq cmd (codes "start-all")
      then start_all_command world pm
      else if text_eq cmd (codes "stop-all")
      then stop_all_command world pm
      else if text_eq cmd (codes "restart-all")
      then restart_all world pm
      else if text_eq cmd (codes "group-start")
      then group_start world name pm
      else if text_eq cmd (codes "group-stop")
      then group_stop world name pm
      else if text_eq cmd (codes "group-restart")
      then group_restart world name pm
      else if text_eq cmd (codes "reload")
      then reload_command world name pm
      else if text_eq cmd (codes "signal")
      then signal_command world parts pm
      else if text_eq cmd (codes "events")
      then events_command world parts pm
      else if text_eq cmd (codes "help")
      then answer help_text pm
      else answer (codes "ERR unknown command: " ++ cmd) pm

  unfoldable pub handle_words : List Text → ProcessManager → Reply
  unfolding answer second_word is_valid_name dispatch
  handle_words [] pm = answer (codes "ERR empty command") pm
  handle_words (cmd ∷ ws) pm =
      let name = second_word (cmd ∷ ws) in
      if not (text_eq name []) && not (is_valid_name name)
      then answer (codes "ERR invalid process name") pm
      else dispatch cmd (cmd ∷ ws) name pm

  unfoldable pub handle_command : Text → ProcessManager → Reply
  unfolding fields handle_words
  handle_command line pm = handle_words (fields line) pm

  -- The lines of a connection: what is answered, and the processes that are left. A command that
  -- never answers is the last one.
  unfoldable pub handle_conn : List Text → ProcessManager → List Text × ProcessManager
  unfolding handle_command
  handle_conn [] pm = ([], pm)
  handle_conn (l ∷ ls) pm =
      let line = trim_space l in
      let r = handle_command line pm in
      let blank = text_eq line [] in
      let after : ProcessManager = if blank then pm else (record { processes = r.processes }) in
      let rest = handle_conn ls after in
      if blank
      then rest
      else if text_eq line (codes "quit") || text_eq line (codes "exit")
      then (codes "OK bye" ∷ [], pm)
      else elim r.text [ none ↦ ([], after) | some text ↦ (text ∷ rest.0, rest.1) ]
