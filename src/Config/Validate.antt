-- ===== src/Config/Validate.antt =====
-- internal/config/config.go: `ValidateConfig`. A warning is named by what it says and holds what is
-- printed into it.
pub mod Merge
pub mod Sound
use gosupervisor.Prelude.{
  ℕ, ℤ, pos, Bool, true, false, ◌&&◌, ◌||◌, not, List, [], ◌∷◌, ◌++◌, Option, none, some,
  if◌then◌else◌, Text, codes, text_eq, text_in, has_prefix, keys, insert, is_positive,
}
use gosupervisor.Manager.Sort.{Graph}
use gosupervisor.Config.Cycle.{Outcome, explored, cycle, out_of_fuel, find_dependency_cycle}

-- What is read of `ProgramConfig`.
pub record Program : Type 0 where
  pub name : Text
  pub command : Text
  pub depends_on : List Text
  pub stop_signal : Text
  pub socket : Text

-- What is read of `EventListenerConfig`.
pub record EventListener : Type 0 where
  pub command : Text
  pub events : List Text
  pub buffer_size : ℤ
  pub stop_signal : Text

pub record Config : Type 0 where
  pub programs : List (Text × Program)
  pub event_listeners : List (Text × EventListener)
  pub fcgi_programs : List (Text × Program)

pub data Warning : Type 0 where
  no_command no_name own_dependency : Text → Warning
  unknown_dependency : Text → Text → Warning
  odd_signal : Text → Text → Warning
  listener_no_command no_events no_buffer : Text → Warning
  listener_odd_signal : Text → Text → Warning
  no_socket fcgi_no_command fcgi_own_dependency : Text → Warning
  bad_socket : Text → Text → Warning
  fcgi_unknown_dependency : Text → Text → Warning
  dependency_cycle : Text → Text → Warning
  -- No outcome of the search; it is here for the totality of the translation.
  search_unfinished : Warning

abbrev pub known_signals : List Text
known_signals =
    codes "SIGTERM"
    ∷ codes "SIGKILL"
    ∷ codes "SIGHUP"
    ∷ codes "SIGINT"
    ∷ codes "SIGQUIT"
    ∷ codes "SIGUSR1"
    ∷ codes "SIGUSR2"
    ∷ codes "SIGSTOP"
    ∷ codes "SIGCONT"
    ∷ codes "SIGABRT"
    ∷ codes "SIGALRM"
    ∷ codes "SIGCHLD"
    ∷ codes "SIGPIPE"
    ∷ codes "SIGIO"
    ∷ codes "SIGTRAP"
    ∷ codes "SIGURG"
    ∷ codes "SIGWINCH"
    ∷ codes "SIGTSTP"
    ∷ codes "SIGTTIN"
    ∷ codes "SIGTTOU"
    ∷ codes "SIGXCPU"
    ∷ codes "SIGXFSZ"
    ∷ codes "SIGVTALRM"
    ∷ codes "SIGPROF"
    ∷ codes "SIGPWR"
    ∷ codes "SIGSYS"
    ∷ []

-- `append` under a condition.
unfoldable pub warn_if : Bool → Warning → List Warning
warn_if test w = if test then w ∷ [] else []

-- A signal that is set and not in the map.
unfoldable pub is_odd : Text → Bool
is_odd signal = not (text_eq signal []) && not (text_in signal known_signals)

unfoldable pub check_depends_on : (programs : List Text) → Text → List Text → List Warning
unfolding warn_if
check_depends_on programs name [] = []
check_depends_on programs name (dep ∷ deps) =
    warn_if (not (text_in dep programs)) (unknown_dependency name dep)
    ++ (warn_if (text_eq dep name) (own_dependency name) ++ check_depends_on programs name deps)

unfoldable pub check_programs : (programs : List Text) → List (Text × Program) → List Warning
unfolding warn_if is_odd check_depends_on
check_programs programs [] = []
check_programs programs ((name, p) ∷ rest) =
    warn_if (text_eq p.command []) (no_command name)
    ++ (check_depends_on programs name p.depends_on
        ++ (warn_if (text_eq p.name []) (no_name name)
            ++ (warn_if (is_odd p.stop_signal) (odd_signal name p.stop_signal)
                ++ check_programs programs rest)))

unfoldable pub check_listeners : List (Text × EventListener) → List Warning
unfolding warn_if is_odd
check_listeners [] = []
check_listeners ((name, el) ∷ rest) =
    warn_if (text_eq el.command []) (listener_no_command name)
    ++ (warn_if (elim el.events [ [] ↦ true | e ∷ es ↦ false ]) (no_events name)
        ++ (warn_if (not (is_positive el.buffer_size)) (no_buffer name)
            ++ (warn_if (is_odd el.stop_signal) (listener_odd_signal name el.stop_signal)
                ++ check_listeners rest)))

unfoldable pub check_socket : Text → Text → List Warning
unfolding warn_if
check_socket name socket =
    if text_eq socket []
    then no_socket name ∷ []
    else warn_if
        (not (has_prefix socket (codes "unix://")) && not (has_prefix socket (codes "tcp://")))
        (bad_socket name socket)

unfoldable pub check_fcgi_depends_on :
    (programs fcgi_programs : List Text) → Text → List Text → List Warning
unfolding warn_if
check_fcgi_depends_on programs fcgi_programs name [] = []
check_fcgi_depends_on programs fcgi_programs name (dep ∷ deps) =
    (if text_in dep programs
      then []
      else warn_if (not (text_in dep fcgi_programs)) (fcgi_unknown_dependency name dep))
    ++ (warn_if (text_eq dep name) (fcgi_own_dependency name)
        ++ check_fcgi_depends_on programs fcgi_programs name deps)

unfoldable pub check_fcgi_programs :
    (programs fcgi_programs : List Text) → List (Text × Program) → List Warning
unfolding warn_if check_socket check_fcgi_depends_on
check_fcgi_programs programs fcgi_programs [] = []
check_fcgi_programs programs fcgi_programs ((name, p) ∷ rest) =
    check_socket name p.socket
    ++ (warn_if (text_eq p.command []) (fcgi_no_command name)
        ++ (check_fcgi_depends_on programs fcgi_programs name p.depends_on
            ++ check_fcgi_programs programs fcgi_programs rest))

-- One of the loops that fill `allProgs`.
unfoldable pub merge_programs :
    List (Text × Program) → List (Text × Program) → List (Text × Program)
unfolding insert
merge_programs all [] = all
merge_programs all ((k, v) ∷ rest) = merge_programs (insert k v all) rest

unfoldable pub all_programs : Config → List (Text × Program)
unfolding merge_programs
all_programs c = merge_programs (merge_programs [] c.programs) c.fcgi_programs

-- What the search for a cycle reads of the programs.
unfoldable pub dependencies : List (Text × Program) → Graph
dependencies [] = []
dependencies ((name, p) ∷ rest) = (name, p.depends_on) ∷ dependencies rest

unfoldable pub cycle_warning : Outcome → List Warning
cycle_warning (explored color) = []
cycle_warning (cycle name dep) = dependency_cycle name dep ∷ []
cycle_warning out_of_fuel = search_unfinished ∷ []

unfoldable pub validate_config : Config → List Warning
unfolding check_programs check_listeners check_fcgi_programs cycle_warning all_programs dependencies
validate_config c =
    check_programs (keys c.programs) c.programs
    ++ (check_listeners c.event_listeners
        ++ (check_fcgi_programs (keys c.programs) (keys c.fcgi_programs) c.fcgi_programs
            ++ cycle_warning (find_dependency_cycle (dependencies (all_programs c)))))
