-- ===== src/Listener/Manager/Reload.antt =====
-- internal/eventlistener/manager.go: `Start`, `Stop` and `Reload`; listener.go: `start` and `stop`. A
-- call of `start` holds the lock of the listener, and of `stop` only the calls that return are
-- modelled: the child ends, by its signal or by a kill. Whether a child can be started is given.
pub mod Fresh
use gosupervisor.Prelude.{
  ℕ, Bool, true, false, ◌||◌, not, List, [], ◌∷◌, Option, none, some, if◌then◌else◌, Text, lookup,
  insert,
}
use gosupervisor.Listener.Queue.{close}
use gosupervisor.Listener.Manager.{
  EventListenerConfig, EventListener, EventListenerManager, new_event_listener, new_listeners,
  new_manager,
}

-- The field `state`; a new listener has none.
pub data ListenerState : Type 0 where
  fresh starting running stopping stopped : ListenerState

unfoldable pub is_started : ListenerState → Bool
is_started starting = true
is_started running = true
is_started _ = false

unfoldable pub is_running : ListenerState → Bool
is_running running = true
is_running _ = false

-- What `Start` reads of a listener besides its queue.
pub record Life : Type 0 where
  pub auto_start : Bool
  pub state : ListenerState

-- The manager with the lives of its listeners, by the same names.
pub record Service : Type 0 where
  pub manager : EventListenerManager
  pub lives : List (Text × Life)

-- `l.start()`, where `ok` says whether the child can be started.
unfoldable pub start_listener : (ok : Bool) → Life → Life
unfolding is_started
start_listener ok l =
    if is_started l.state then l else record l { state = if ok then running else stopped }

unfoldable pub start_lives : (ok : Text → Bool) → List (Text × Life) → List (Text × Life)
unfolding start_listener
start_lives ok [] = []
start_lives ok ((name, l) ∷ ls) =
    (name, if l.auto_start then start_listener (ok name) l else l) ∷ start_lives ok ls

unfoldable pub start_service : (ok : Text → Bool) → Service → Service
unfolding start_lives
start_service ok s = record s { lives = start_lives ok s.lives }

-- What `l.stop()` leaves of the life and of the queue.
unfoldable pub stop_life : Life → Life
unfolding is_running
stop_life l = if is_running l.state then record l { state = stopped } else l

unfoldable pub stop_queue : Option Life → EventListener → EventListener
unfolding is_running close
stop_queue none l = l
stop_queue (some life) l = if is_running life.state then record l { queue = close l.queue } else l

unfoldable pub stop_lives : List (Text × Life) → List (Text × Life)
unfolding stop_life
stop_lives [] = []
stop_lives ((name, l) ∷ ls) = (name, stop_life l) ∷ stop_lives ls

unfoldable pub stop_listeners :
    List (Text × Life) → List (Text × EventListener) → List (Text × EventListener)
unfolding stop_queue lookup
stop_listeners lives [] = []
stop_listeners lives ((name, l) ∷ ls) =
    (name, stop_queue (lookup name lives) l) ∷ stop_listeners lives ls

unfoldable pub stop_service : Service → Service
unfolding stop_lives stop_listeners
stop_service s = record {
  manager = record s.manager { listeners = stop_listeners s.lives s.manager.listeners };
  lives = stop_lives s.lives;
}

pub record StartConfig : Type 0 where
  pub listener : EventListenerConfig
  pub auto_start : Bool

unfoldable pub listener_configs : List (Text × StartConfig) → List (Text × EventListenerConfig)
listener_configs [] = []
listener_configs ((name, c) ∷ cs) = (name, c.listener) ∷ listener_configs cs

unfoldable pub new_lives : List (Text × StartConfig) → List (Text × Life)
new_lives [] = []
new_lives ((name, c) ∷ cs) =
    (name, record { auto_start = c.auto_start; state = fresh }) ∷ new_lives cs

-- `Reload`: the service that goes on, and the listeners that are left stopped. The serial is kept.
unfoldable pub reload : (ok : Text → Bool) → List (Text × StartConfig) → Service → Service × Service
unfolding start_service stop_service new_lives listener_configs new_listeners
reload ok cfgs s = (
  start_service ok (record {
    manager = record s.manager { listeners = new_listeners (listener_configs cfgs) };
    lives = new_lives cfgs;
  }),
  stop_service s,
)
