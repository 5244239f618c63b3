-- ===== src/Listener/Wire.antt =====
-- internal/eventlistener/wire.go, and `buildEventMask` and `wantsEvent` of listener.go: event
-- names, subscriptions and the wire format of an event.
pub mod Frame
use gosupervisor.Prelude.{
  ℕ, Bool, true, false, ◌||◌, List, [], ◌∷◌, ◌++◌, Option, none, some, Text, codes, lookup, decimal,
  trim_space, length,
}
use gosupervisor.Events.{
  EventType, Event, start, stop, exit, fatal, health_fail, health_restore, signal,
}

abbrev pub supervisord_event_derives : List (Text × List EventType)
supervisord_event_derives =
    (codes "EVENT", start ∷ stop ∷ exit ∷ fatal ∷ health_fail ∷ health_restore ∷ signal ∷ [])
    ∷ (codes "PROCESS_STATE", start ∷ stop ∷ exit ∷ fatal ∷ health_fail ∷ health_restore ∷ [])
    ∷ (codes "PROCESS_STATE_STARTING", start ∷ [])
    ∷ (codes "PROCESS_STATE_RUNNING", health_restore ∷ [])
    ∷ (codes "PROCESS_STATE_STOPPED", stop ∷ [])
    ∷ (codes "PROCESS_STATE_EXITED", exit ∷ [])
    ∷ (codes "PROCESS_STATE_FATAL", fatal ∷ health_fail ∷ [])
    ∷ (codes "PROCESS_STATE_STOPPING", [])
    ∷ (codes "PROCESS_STATE_BACKOFF", [])
    ∷ (codes "PROCESS_STATE_UNKNOWN", [])
    ∷ (codes "PROCESS_LOG_STDOUT", [])
    ∷ (codes "PROCESS_LOG_STDERR", [])
    ∷ (codes "PROCESS_COMMUNICATION", [])
    ∷ (codes "TICK_5", [])
    ∷ (codes "TICK_60", [])
    ∷ (codes "TICK_3600", [])
    ∷ []

unfoldable pub event_wire_name : EventType → Text
event_wire_name start = codes "PROCESS_STATE_STARTING"
event_wire_name stop = codes "PROCESS_STATE_STOPPED"
event_wire_name exit = codes "PROCESS_STATE_EXITED"
event_wire_name fatal = codes "PROCESS_STATE_FATAL"
event_wire_name health_fail = codes "PROCESS_STATE_FATAL"
event_wire_name health_restore = codes "PROCESS_STATE_RUNNING"
event_wire_name signal = codes "PROCESS_STATE"

pub EventType-discrete : Discrete EventType
EventType-discrete = hlevel

unfoldable pub typ_eq : EventType → EventType → Bool
typ_eq start start = true
typ_eq stop stop = true
typ_eq exit exit = true
typ_eq fatal fatal = true
typ_eq health_fail health_fail = true
typ_eq health_restore health_restore = true
typ_eq signal signal = true
typ_eq _ _ = false

-- The event types that the mask of `buildEventMask` maps to true.
unfoldable pub build_event_mask : List Text → List EventType
build_event_mask [] = []
build_event_mask (name ∷ names) = elim (lookup (trim_space name) supervisord_event_derives) [
  | none ↦ build_event_mask names
  | some types ↦ types ++ build_event_mask names
]

unfoldable pub wants_event : List EventType → EventType → Bool
wants_event [] typ = false
wants_event (t ∷ mask) typ = typ_eq t typ || wants_event mask typ

unfoldable pub event_body : Event → Text
event_body e =
    codes "processname:"
    ++ (e.name
        ++ (codes " groupname:" ++ (e.name ++ (codes " pid:" ++ (decimal e.pid ++ 10 ∷ [])))))

-- The header line without its newline.
unfoldable pub event_header : Event → (server_id : Text) → (serial pool_serial : ℕ) → Text → Text
unfolding event_body
event_header e server_id serial pool_serial pool =
    codes "ver:3.0 server:"
    ++ (server_id
        ++ (codes " serial:"
            ++ (decimal serial
                ++ (codes " pool:"
                    ++ (pool
                        ++ (codes " poolserial:"
                            ++ (decimal pool_serial
                                ++ (codes " eventname:"
                                    ++ (event_wire_name e.typ
                                        ++ (codes " len:"
                                            ++ decimal (length (event_body e))))))))))))

unfoldable pub encode_event : Event → (server_id : Text) → (serial pool_serial : ℕ) → Text → Text
unfolding event_header
encode_event e server_id serial pool_serial pool =
    event_header e server_id serial pool_serial pool ++ 10 ∷ event_body e
