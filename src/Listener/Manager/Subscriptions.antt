-- ===== src/Listener/Manager/Subscriptions.antt =====
-- internal/eventlistener/manager.go: which events reach which listener's queue.
use mathlib.Core.Option
use gosupervisor.Prelude.{
  ◌≡◌, refl, ap, ◌∙◌, inl, inr, List, [], ◌∷◌, some, Text, text_eq, lookup, last_n, if◌then◌else◌,
  Bool-cases,
}
use gosupervisor.Events.{EventType, Event}
use gosupervisor.Listener.Queue.{new_event_queue}
use gosupervisor.Listener.Queue.Window.{push_all, push_all-last_n}
use gosupervisor.Listener.Wire.{build_event_mask, wants_event}
use gosupervisor.Listener.Manager.{
  EventListenerConfig, EventListener, EventListenerManager, new_event_listener, new_listeners,
  new_manager, offer, offer_each, emit_event,
}

-- What is told to `EmitEvent`, as the event that it builds.
pub emit_all : List Event → EventListenerManager → EventListenerManager
emit_all [] m = m
emit_all (e ∷ es) m = emit_all es (emit_event e.name e.typ e.pid e.exit_code e.message m)

abbrev pub untimed : Event → Event
untimed e = record e { timestamp = 0 }

-- The events of a type that the mask covers, as they are queued.
pub wanted : List EventType → List Event → List Event
wanted mask [] = []
wanted mask (e ∷ es) = if wants_event mask e.typ then untimed e ∷ wanted mask es else wanted mask es

lookup-offer_each :
    (k : Text) (e : Event) (ls : List (Text × EventListener)) (l : EventListener)
    → lookup k ls ≡ some l
    → lookup k (offer_each e ls) ≡ some (offer e l)
unfolding lookup offer_each
lookup-offer_each k e [] l h = cc
lookup-offer_each k e ((j, l') ∷ ls) l h = elim (Bool-cases (text_eq j k)) [
  | inl same ↦ rw same (ap (λ o. Option.map (offer e) o) (rw same at h))
  | inr other ↦ rw other (lookup-offer_each k e ls l (rw other at h))
]

pub lookup-new_listeners :
    (k : Text) (cfgs : List (Text × EventListenerConfig)) (cfg : EventListenerConfig)
    → lookup k cfgs ≡ some cfg
    → lookup k (new_listeners cfgs) ≡ some (new_event_listener cfg)
unfolding lookup new_listeners
lookup-new_listeners k [] cfg h = cc
lookup-new_listeners k ((j, c) ∷ cfgs) cfg h = elim (Bool-cases (text_eq j k)) [
  | inl same ↦ rw same (ap (λ o. Option.map new_event_listener o) (rw same at h))
  | inr other ↦ rw other (lookup-new_listeners k cfgs cfg (rw other at h))
]

offered :
    (k : Text) (e : Event) (es : List Event) (l : EventListener)
    → push_all (wanted (offer (untimed e) l).event_mask es) (offer (untimed e) l).queue
      ≡ push_all (wanted l.event_mask (e ∷ es)) l.queue
unfolding wanted push_all offer
offered k e es l = elim (Bool-cases (wants_event l.event_mask e.typ)) [
  | inl wants ↦ rw wants
  | inr skips ↦ rw skips
]

pub emit_all-queue :
    (k : Text) (es : List Event) (m : EventListenerManager) (l : EventListener)
    → lookup k m.listeners ≡ some l
    → (l' : EventListener) × (lookup k (emit_all es m).listeners ≡ some l')
      × (l'.queue ≡ push_all (wanted l.event_mask es) l.queue)
unfolding emit_all emit_event wanted push_all offer
emit_all-queue k [] m l h = (l, h, refl)
emit_all-queue k (e ∷ es) m l h =
    let (l', found, q) =
      emit_all-queue k es (emit_event e.name e.typ e.pid e.exit_code e.message m)
        (offer (untimed e) l) (lookup-offer_each k (untimed e) m.listeners l h) in
    (l', found, q ∙ offered k e es l)

-- After any events were emitted, the queue of each configured listener, if nothing was taken from
-- it, holds the last of the events whose type its event names cover, in the order of emission, as
-- many as its buffer size allows; the other listeners make no difference.
pub emit_all-last_n :
    (k : Text) (cfgs : List (Text × EventListenerConfig)) (cfg : EventListenerConfig)
    (es : List Event)
    → lookup k cfgs ≡ some cfg
    → (l : EventListener) × (lookup k (emit_all es (new_manager cfgs)).listeners ≡ some l)
      × (l.queue.events
          ≡ last_n
              (new_event_queue {A = Event} cfg.buffer_size).cap
              (wanted (build_event_mask cfg.events) es))
unfolding new_manager
emit_all-last_n k cfgs cfg es h =
    let (l, found, q) =
      emit_all-queue k es (new_manager cfgs) (new_event_listener cfg)
        (lookup-new_listeners k cfgs cfg h) in
    (
      l,
      found,
      ap (λ x. x.events) q
          ∙ (push_all-last_n cfg.buffer_size (wanted (build_event_mask cfg.events) es)).1,
    )
