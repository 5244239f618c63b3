-- ===== src/Examples/Commands.antt =====
-- Runs of the control socket.
use gosupervisor.Prelude.{
  ◌≡◌, ◌↔◌, ◌⊎◌, refl, true, false, [], ◌∷◌, none, some, Text, codes, lookup, insert, text_eq,
  contains, has_prefix,
}
use gosupervisor.Process.{Process}
use gosupervisor.Process.Start.{start}
use gosupervisor.Process.Stop.{stop}
use gosupervisor.Process.Restart.{restart}
use gosupervisor.Manager.{ProcessManager}
use gosupervisor.Manager.Sort.{sort_by_priority}
use gosupervisor.Control.{World, answer, is_valid_name}
use gosupervisor.Control.Dispatch.{handle_command}
use gosupervisor.Control.Replies.{IsName, handle_command-name}
use gosupervisor.Control.Waiting.{IsStuck, handle_command-waits}
use gosupervisor.Examples.{sample_config, running_process, good_launch, quick_halt}

abbrev world : World
world = record {
  env = record { launch = λ name. good_launch; halt = λ name. quick_halt };
  sent = λ name. true;
  sort = sort_by_priority [];
  error_text = λ p e. codes "failed";
  int_text = λ n. codes "0";
  usage = λ p. [];
  has_fcgi_socket = λ p. false;
  time_text = λ t. [];
  scan_int = λ s. none;
  events = record { buf = []; capacity = 0; pos = 0; full = false };
}

abbrev cat : Text
cat = codes "cat"

cat-IsName : IsName cat
unfolding is_valid_name contains has_prefix text_eq
cat-IsName = record { solid = (refl, (refl, (refl, tt))); valid = refl }

abbrev pm : ProcessManager
pm = record { processes = (cat, running_process) ∷ [] }

handle_command-name_example :
    let up = handle_command world (codes "start cat") pm in
    let down = handle_command world (codes "stop cat") pm in
    let again = handle_command world (codes "restart cat") pm in
    ((lookup cat pm.processes ≡ none)
      × (up ≡ answer (codes "ERR process not found") pm)
      × (down ≡ answer (codes "ERR process not found") pm)
      × (again ≡ answer (codes "ERR process not found") pm))
    ⊎ ((p : Process) × (lookup cat pm.processes ≡ some p)
        × (up.processes ≡ insert cat (start good_launch p).0 pm.processes)
        × ((up.text ≡ some (codes "OK started")) ↔ ((start good_launch p).2 ≡ none))
        × (down.processes ≡ insert cat (stop quick_halt p).0 pm.processes)
        × (down.text ≡ some (codes "OK stopped"))
        × (again.processes ≡ insert cat (restart quick_halt good_launch p).0 pm.processes)
        × ((again.text ≡ some (codes "OK restarted"))
            ↔ ((restart quick_halt good_launch p).2 ≡ none)))
handle_command-name_example = handle_command-name world cat pm cat-IsName

abbrev socket_manager : ProcessManager
socket_manager = record {
  processes =
      (
        cat,
        record running_process { config = record sample_config { socket = codes "tcp://:9000" } },
      )
      ∷ [];
}

handle_command-waits_example :
    ((handle_command world (codes "restart-all") socket_manager).text ≡ none)
    ↔ ((k : Text) × (p : Process) × (lookup k socket_manager.processes ≡ some p) × IsStuck p)
handle_command-waits_example =
    handle_command-waits world socket_manager (unfold lookup in (refl, tt))
