-- ===== src/Events.antt =====
-- internal/process/event.go and internal/process/resource_history.go: the events of a process, the
-- buffers over `RingBuffer`, and the fan-out of `RecordEvent`. A time is a number of nanoseconds.
-- A callback acts on the world `W` that it is given, which is all that the caller sees of it.
pub mod Fanout
pub mod History
use gosupervisor.Prelude.{
  ℕ, zero, suc, ◌+◌, ℤ, pos, negsuc, Bool, true, false, List, [], ◌∷◌, Option, none, some, ltb,
  Text,
}
use gosupervisor.Ring.{RingBuffer, push, snapshot_all, snapshot_last}

pub data EventType : Type 0 where
  start stop exit fatal health_fail health_restore signal : EventType

pub record Event : Type 0 where
  pub timestamp : ℕ
  pub name : Text
  pub typ : EventType
  pub pid : ℕ
  pub exit_code : ℤ
  pub message : Text

-- `EventBuffer.Snapshot`: a limit that is not positive asks for all.
unfoldable pub event_snapshot : ℤ → RingBuffer Event → Option (List Event)
event_snapshot (pos (suc n)) eb = snapshot_last (suc n) eb
event_snapshot _ eb = snapshot_all eb

-- The global buffer and the two callback slots.
pub record Hub (W : Type 0) : Type 0 where
  pub buffer : RingBuffer Event
  pub on_event_sse : Option (Event → W → W)
  pub on_event_el : Option (Event → W → W)

module _ {W : Type 0} where
  unfoldable pub set_on_event_sse : Option (Event → W → W) → Hub W → Hub W
  set_on_event_sse fn hub = record hub { on_event_sse = fn }

  unfoldable pub set_on_event_el : Option (Event → W → W) → Hub W → Hub W
  set_on_event_el fn hub = record hub { on_event_el = fn }

  unfoldable pub call : Option (Event → W → W) → Event → W → W
  call none e w = w
  call (some fn) e w = fn e w

  -- `none` where the push panics.
  unfoldable pub record_event : Event → Hub W → W → Option (Hub W × W)
  unfolding call
  record_event e hub w = elim (push e hub.buffer) [
    | none ↦ none
    | some buffer' ↦
        some (record hub { buffer = buffer' }, call hub.on_event_el e (call hub.on_event_sse e w))
  ]

-- `float64` is the parameter `F`: the history only stores it.
pub record ResourceSample (F : Type 0) : Type 0 where
  pub timestamp : ℕ
  pub cpu : F
  pub memory : ℕ

module _ {F : Type 0} where
  -- `for n < len(all) && all[n].Timestamp.Before(cutoff)`, with `cutoff` the time `now - since`.
  unfoldable pub skip_before : ℕ → ℕ → List (ResourceSample F) → List (ResourceSample F)
  skip_before now since [] = []
  skip_before now since (x ∷ xs) = elim (ltb (x.timestamp + since) now) [
    | true ↦ skip_before now since xs
    | false ↦ x ∷ xs
  ]

  -- A duration that is not positive asks for all.
  unfoldable pub history_snapshot :
      ℕ → ℤ → RingBuffer (ResourceSample F) → Option (List (ResourceSample F))
  unfolding skip_before
  history_snapshot now (pos (suc n)) rh = elim (snapshot_all rh) [
    | none ↦ none
    | some all ↦ some (skip_before now (suc n) all)
  ]
  history_snapshot now _ rh = snapshot_all rh
