-- ===== src/Listener/Protocol/Overflow.antt =====
-- internal/eventlistener/listener.go: a push into a full queue while a result is awaited. `Pop`
-- leaves the event that is sent in the queue, `Push` drops it there, and `RemoveFirst` then takes
-- out the one behind it.
use gosupervisor.Events.{Event}
use gosupervisor.Listener.Queue.{push, remove_first}
use gosupervisor.Prelude.{length, Text, codes, text_eq_refl, ◌≡◌, some, List, [], ◌∷◌, ◌++◌, arith}
use gosupervisor.Listener.Protocol.{await_ready, await_result, Loop, child_result, emit, run, step}

-- If the queue is full when an event is pushed between the sending of its oldest event and the
-- answer OK, the second oldest event is taken out as well, and nothing was written in between: it
-- is lost without ever having been sent.
pub run-overflow_loses :
    (pool : Text) (sent unsent new : Event) (es : List Event) (l : Loop)
    → l.phase ≡ await_result sent
    → l.queue.events ≡ sent ∷ unsent ∷ es
    → l.queue.cap ≡ length l.queue.events
    → let l' = run pool (emit new ∷ child_result (some (codes "OK")) ∷ []) l in
      (l'.queue.events ≡ es ++ new ∷ []) × (l'.written ≡ l.written) × (l'.phase ≡ await_ready)
unfolding run step push remove_first
run-overflow_loses pool sent unsent new es l p q c = ground (arith, text_eq_refl (codes "OK"))
