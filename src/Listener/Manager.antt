-- ===== src/Listener/Manager.antt =====
-- internal/eventlistener/manager.go: the listeners by name, and `EmitEvent`; of a listener, what
-- `newEventListener` builds and `EmitEvent` reads. The order of a map's entries is the list's.
pub mod Subscriptions
pub mod Reload
use gosupervisor.Prelude.{ℕ, ◌+◌, ℤ, pos, Bool, true, false, List, [], ◌∷◌, Text, if◌then◌else◌}
use gosupervisor.Events.{EventType, Event}
use gosupervisor.Listener.Queue.{EventQueue, new_event_queue, push}
use gosupervisor.Listener.Wire.{build_event_mask, wants_event}

-- What the two constructors read of `EventListenerConfig`.
pub record EventListenerConfig : Type 0 where
  pub name : Text
  pub events : List Text
  pub buffer_size : ℤ

pub record EventListener : Type 0 where
  pub config : EventListenerConfig
  pub queue : EventQueue Event
  pub event_mask : List EventType

pub record EventListenerManager : Type 0 where
  pub listeners : List (Text × EventListener)
  pub serial : ℕ

unfoldable pub new_event_listener : EventListenerConfig → EventListener
new_event_listener cfg = record {
  config = cfg;
  queue = new_event_queue cfg.buffer_size;
  event_mask = build_event_mask cfg.events;
}

unfoldable pub new_listeners : List (Text × EventListenerConfig) → List (Text × EventListener)
unfolding new_event_listener
new_listeners [] = []
new_listeners ((name, cfg) ∷ cfgs) = (name, new_event_listener cfg) ∷ new_listeners cfgs

unfoldable pub new_manager : List (Text × EventListenerConfig) → EventListenerManager
unfolding new_listeners
new_manager cfgs = record { listeners = new_listeners cfgs; serial = 0 }

unfoldable pub offer : Event → EventListener → EventListener
offer e l = if wants_event l.event_mask e.typ then record l { queue = push e l.queue } else l

unfoldable pub offer_each : Event → List (Text × EventListener) → List (Text × EventListener)
unfolding offer
offer_each e [] = []
offer_each e ((name, l) ∷ ls) = (name, offer e l) ∷ offer_each e ls

-- The event has no timestamp: the source leaves it at its zero value.
unfoldable pub emit_event :
    (name : Text) (typ : EventType) (pid : ℕ) (exit_code : ℤ) (message : Text)
    → EventListenerManager
    → EventListenerManager
unfolding offer_each
emit_event name typ pid exit_code message m =
    let e : Event = record {
      timestamp = 0;
      name = name;
      typ = typ;
      pid = pid;
      exit_code = exit_code;
      message = message;
    } in
    record { listeners = offer_each e m.listeners; serial = m.serial + 1 }
