-- ===== src/Events/Fanout.antt =====
-- internal/process/event.go: what a run of `RecordEvent` calls stores and whom it tells.
use gosupervisor.Ring.{RingBuffer, new_ring_buffer, push, push_all}
use gosupervisor.Ring.View.{push_all-view}
use gosupervisor.Events.{Event, Hub, call, event_snapshot, record_event}
use gosupervisor.Prelude.{
  Option-cases, last_n, ℕ, suc, ◌<◌, min, ◌≡◌, inl, inr, Option, none, some, List, [], ◌∷◌, arith,
  pos,
}

module _ {W : Type 0} where
  pub record_all : List Event → Hub W → W → Option (Hub W × W)
  record_all [] hub w = some (hub, w)
  record_all (e ∷ es) hub w = elim (record_event e hub w) [
    | none ↦ none
    | some (hub', w') ↦ record_all es hub' w'
  ]

  -- Each event goes to the SSE slot, then to the event listeners' slot, in the order of the calls.
  pub tell_all : Option (Event → W → W) → Option (Event → W → W) → List Event → W → W
  tell_all sse el [] w = w
  tell_all sse el (e ∷ es) w = tell_all sse el es (call el e (call sse e w))

  record_all-push_all :
      (es : List Event) (hub : Hub W) (w : W) (eb : RingBuffer Event)
      → push_all es hub.buffer ≡ some eb
      → record_all es hub w
        ≡ some (record hub { buffer = eb }, tell_all hub.on_event_sse hub.on_event_el es w)
  unfolding record_all tell_all push_all record_event
  record_all-push_all [] hub w eb h = ground arith
  record_all-push_all (e ∷ es) hub w eb h = elim (Option-cases (push e hub.buffer)) [
    | inl panics ↦ cc (rw (panics, push_all) at h)
    | inr (b, pushed) ↦
        rw (pushed, record_all)
          (record_all-push_all es (record hub { buffer = b })
            (call hub.on_event_el e (call hub.on_event_sse e w)) eb (rw (pushed, push_all) at h))
  ]

  -- Any calls of `RecordEvent` on a hub with a new buffer succeed; the buffer then shows the last
  -- `capacity` events, or the last `n` of these for a positive limit `n`, and both callbacks were
  -- called for every event, those that the buffer has dropped included.
  pub record_all-view :
      (blank : Event) (capacity : ℕ) (sse el : Option (Event → W → W)) (es : List Event) (w : W)
      → 0 < capacity
      → (hub : Hub W) × (record_all es
            (record {
              buffer = new_ring_buffer blank capacity;
              on_event_sse = sse;
              on_event_el = el;
            })
            w
          ≡ some (hub, tell_all sse el es w))
        × (event_snapshot (pos 0) hub.buffer ≡ some (last_n capacity es))
        × ((n : ℕ)
            → event_snapshot (pos (suc n)) hub.buffer ≡ some (last_n (min (suc n) capacity) es))
  unfolding event_snapshot
  record_all-view blank capacity sse el es w h =
      let (eb, e, all, some_of, _) = push_all-view blank capacity es h in
      (
        record { buffer = eb; on_event_sse = sse; on_event_el = el },
        record_all-push_all es _ w eb e,
        all,
        λ n. some_of (suc n),
      )
