-- ===== src/Examples/Sockets.antt =====
-- Runs of the shared socket.
use gosupervisor.Prelude.{
  suc, ◌+◌, ◌≡◌, refl, true, false, List, [], ◌∷◌, none, some, Text, codes, has_prefix, text_eq,
}
use gosupervisor.Fcgi.{
  Os, SocketManager, not_listening, listen, new_socket_manager, attach, quote_args, join_blank,
}
use gosupervisor.Fcgi.Counting.{IsOpen, attach_times, release_times, release-counts}
use gosupervisor.Fcgi.Quoting.{bare, read_words, kept, read_words-quote_args}

-- A system on which everything works, and no name is known.
abbrev pub sample_os : Os
sample_os = record {
  net_listen = λ network address. true;
  chmod = λ path mode. true;
  chown = λ path uid gid. true;
  lookup_user = λ name. none;
  lookup_group = λ name. none;
  atoi = λ s. 0;
  listener_file = λ network address. true;
}

abbrev pub open_socket : SocketManager
open_socket = record (new_socket_manager (codes "unix:///run/a.sock") 0 []) {
  listening = true;
  network = codes "unix";
  address = codes "/run/a.sock";
}

listen_opens :
    listen sample_os (new_socket_manager (codes "unix:///run/a.sock") 0 []) ≡ (open_socket, none)
unfolding listen new_socket_manager has_prefix text_eq
listen_opens = refl

pub open_socket-IsOpen : IsOpen sample_os open_socket
unfolding new_socket_manager
open_socket-IsOpen = record { listens = refl; live = refl; has_file = refl }

abbrev url : Text
url = codes "tcp://:9000"

abbrev pub args : List Text
args = codes "cat" ∷ codes "it's" ∷ []

read_words-quote_args_example :
    read_words bare none (join_blank (quote_args args)) ≡ some (kept args)
read_words-quote_args_example = read_words-quote_args args (refl, (refl, tt))

release-counts_example :
    let first = release_times 2 (attach_times sample_os (2 + suc 1) args open_socket) in
    let all = release_times (2 + suc 1) (attach_times sample_os (2 + suc 1) args open_socket) in
    (IsOpen sample_os first × (first.ref_count ≡ suc 1) × ((attach sample_os args first).1 ≡ none))
    × ((all.closed ≡ true)
        × (all.listening ≡ false)
        × (attach sample_os args all ≡ (all, some not_listening, args)))
release-counts_example =
    release-counts sample_os 2 1 args open_socket open_socket-IsOpen
      (unfold new_socket_manager in refl)
