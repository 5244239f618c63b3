-- ===== src/Listener/Protocol/Order.antt =====
-- internal/eventlistener/listener.go: what the protocol loop delivers, and in which order.
use mathlib.Core.List.{append_assoc, append-nil}
use gosupervisor.Events.{Event}
use gosupervisor.Listener.Wire.{encode_event}
use gosupervisor.Prelude.{
  leb, if◌then◌else◌, Bool-cases, length, Text, codes, text_eq, trim_space, ◌+◌, ◌≡◌, refl, sym, ap,
  ◌∙◌, inl, inr, Bool, true, false, none, some, List, [], ◌∷◌, ◌++◌, arith,
}
use gosupervisor.Listener.Queue.{EventQueue, push, pop, pop_events, close, rest, remove_first}
use gosupervisor.Listener.Protocol.{
  Phase, await_ready, await_event, await_result, ended, Loop, Input, child_line, child_eof,
  pop_event, child_result, emit, close_queue, on_popped, advance, step, run,
}

-- One round of the protocol: a child that says READY is written the oldest event of the queue, with
-- the next serial; if it answers OK the event is taken out, and with any other payload it stays, to
-- be sent again after the next READY.
pub run-round :
    (pool line payload : Text) (e : Event) (es : List Event) (l : Loop)
    → l.phase ≡ await_ready
    → l.queue.events ≡ e ∷ es
    → text_eq (trim_space line) (codes "READY") ≡ true
    → let l' = run pool (child_line line ∷ pop_event true ∷ child_result (some payload) ∷ []) l in
      (l'.phase ≡ await_ready)
      × (l'.written
          ≡ l.written ++ encode_event e (codes "gosupervisor") 0 (l.pool_serial + 1) pool ∷ [])
      × (l'.queue.events ≡ (if text_eq payload (codes "OK") then es else e ∷ es))
      × (l'.pool_serial ≡ l.pool_serial + 1)
unfolding run step pop remove_first
run-round pool line payload e es l p q r = ground arith

-- The events that an input answers with OK.
abbrev pub answers : Phase → Input → List Event
answers (await_result e) (child_result (some payload)) =
    if text_eq payload (codes "OK") then e ∷ [] else []
answers _ _ = []

abbrev pub pushes : Input → List Event
pushes (emit e) = e ∷ []
pushes _ = []

-- Whether an input is a push into a full queue.
abbrev pub overflows : Input → EventQueue Event → Bool
overflows (emit e) q = leb q.cap (length q.events)
overflows _ q = false

pub all_pushes : List Input → List Event
all_pushes [] = []
all_pushes (i ∷ is) = pushes i ++ all_pushes is

pub all_answers : Text → List Input → Loop → List Event
all_answers pool [] l = []
all_answers pool (i ∷ is) l = answers l.phase i ++ all_answers pool is (step pool i l)

-- No push of the run finds the queue full.
unfoldable pub NeverFull : Text → List Input → Loop → Type 0
NeverFull pool [] l = Unit
NeverFull pool (i ∷ is) l = (overflows i l.queue ≡ false) × NeverFull pool is (step pool i l)

-- While a result is awaited, the event that was sent is the oldest of the queue.
abbrev pub SentIsFront : Phase → List Event → Type 0
SentIsFront (await_result e) es = es ≡ e ∷ rest es
SentIsFront _ es = Unit

rest-append :
    (es : List Event) (e f : Event) → es ≡ e ∷ rest es → es ++ f ∷ [] ≡ e ∷ rest (es ++ f ∷ [])
rest-append [] e f h = cc
rest-append (x ∷ es) e f h = cc

push_room :
    (f : Event) (q : EventQueue Event)
    → leb q.cap (length q.events) ≡ false
    → (push f q).events ≡ q.events ++ f ∷ []
unfolding push
push_room f q h = rw h

push-SentIsFront :
    (phase : Phase) (f : Event) (q : EventQueue Event)
    → leb q.cap (length q.events) ≡ false
    → SentIsFront phase q.events
    → SentIsFront phase (push f q).events
push-SentIsFront (await_result e) f q h s = rw (push_room f q h) (rest-append q.events e f s)
push-SentIsFront await_ready f q h s = tt
push-SentIsFront await_event f q h s = tt
push-SentIsFront ended f q h s = tt

pop-SentIsFront :
    (pool : Text) (ok : Bool) (events : List Event) (closed : Bool) (l : Loop)
    → l.queue.events ≡ events
    → l.phase ≡ await_event
    → let l' = on_popped pool ok (pop_events events closed) l in
      (l'.queue.events ≡ events) × SentIsFront l'.phase l'.queue.events
unfolding pop_events on_popped
pop-SentIsFront pool ok [] true l h p = (h, tt)
pop-SentIsFront pool ok [] false l h p = (h, rw p tt)
pop-SentIsFront pool true (e ∷ es) closed l h p = (h, rw h)
pop-SentIsFront pool false (e ∷ es) closed l h p = (h, tt)

-- What an input does to the queue, and what then is sent.
module _ (pool : Text) (l : Loop) where
  abbrev Keeps : Phase → Input → Type 0
  Keeps phase i =
      (l.queue.events ++ pushes i ≡ answers phase i ++ (advance pool phase i l).queue.events)
      × SentIsFront (advance pool phase i l).phase (advance pool phase i l).queue.events

  same : (events : List Event) → events ++ [] ≡ events
  same events = append-nil events

  result-Keeps :
      (e : Event) (payload : Text)
      → SentIsFront (await_result e) l.queue.events
      → Keeps (await_result e) (child_result (some payload))
  unfolding advance remove_first
  result-Keeps e payload s = elim (Bool-cases (text_eq payload (codes "OK"))) [
    | inl ok ↦ rw (ok, same l.queue.events) (s, tt)
    | inr fail ↦ rw (fail, same l.queue.events) (refl, tt)
  ]

  answers-emit : (phase : Phase) (f : Event) → answers phase (emit f) ≡ []
  answers-emit await_ready f = refl
  answers-emit _ f = refl

  answers-close : (phase : Phase) → answers phase close_queue ≡ []
  answers-close await_ready = refl
  answers-close _ = refl

  emit-Keeps :
      (phase : Phase) (f : Event)
      → l.phase ≡ phase
      → leb l.queue.cap (length l.queue.events) ≡ false
      → SentIsFront phase l.queue.events
      → Keeps phase (emit f)
  unfolding advance
  emit-Keeps phase f p h s =
      rw (answers-emit phase f)
        (sym (push_room f l.queue h), rw p (push-SentIsFront phase f l.queue h s))

  line-Keeps : (line : Text) → Keeps await_ready (child_line line)
  unfolding advance
  line-Keeps line = elim (Bool-cases (text_eq (trim_space line) (codes "READY"))) [
    | inl e ↦ rw (e, same l.queue.events) (refl, tt)
    | inr e ↦ rw (e, same l.queue.events) (refl, tt)
  ]

  advance-Keeps :
      (phase : Phase) (i : Input)
      → l.phase ≡ phase
      → overflows i l.queue ≡ false
      → SentIsFront phase l.queue.events
      → Keeps phase i
  unfolding advance close pop
  advance-Keeps phase (emit f) p h s = emit-Keeps phase f p h s
  advance-Keeps (await_result e) (child_result (some payload)) p h s = result-Keeps e payload s
  advance-Keeps await_event (pop_event ok) p h s =
      let (e, f) = pop-SentIsFront pool ok l.queue.events l.queue.closed l refl p in
      (same l.queue.events ∙ sym e, f)
  advance-Keeps await_ready (child_line line) p h s = line-Keeps line
  advance-Keeps await_ready child_eof p h s = (same l.queue.events, tt)
  advance-Keeps (await_result e) (child_result none) p h s = (same l.queue.events, tt)
  advance-Keeps phase close_queue p h s = rw (answers-close phase) (same l.queue.events, rw p s)
  advance-Keeps phase i p h s = (same l.queue.events, rw p s)

run-keeps :
    (pool : Text) (is : List Input) (l : Loop)
    → NeverFull pool is l
    → SentIsFront l.phase l.queue.events
    → l.queue.events ++ all_pushes is ≡ all_answers pool is l ++ (run pool is l).queue.events
unfolding run all_pushes all_answers NeverFull step
run-keeps pool [] l h s = append-nil l.queue.events
run-keeps pool (i ∷ is) l h s =
    let (e, s') = advance-Keeps pool l l.phase i refl h.0 s in
    sym (append_assoc l.queue.events (pushes i) (all_pushes is))
    ∙ ap (λ es. es ++ all_pushes is) e
    ∙ append_assoc (answers l.phase i) (advance pool l.phase i l).queue.events (all_pushes is)
    ∙ ap (λ es. answers l.phase i ++ es) (run-keeps pool is (advance pool l.phase i l) h.1 s')
    ∙ sym (
        append_assoc (answers l.phase i) (all_answers pool is (advance pool l.phase i l))
          (run pool is (advance pool l.phase i l)).queue.events)

-- From a loop that waits for READY, as long as no push finds the queue full, the events that the
-- child has answered with OK, followed by those that are still queued, are the events that were
-- queued at first, followed by those that were pushed: none is lost, none is taken twice, and they
-- are answered in the order in which they came, whatever else the child writes.
pub run_in_order :
    (pool : Text) (is : List Input) (l : Loop)
    → l.phase ≡ await_ready
    → NeverFull pool is l
    → all_answers pool is l ++ (run pool is l).queue.events ≡ l.queue.events ++ all_pushes is
run_in_order pool is l p h = sym (run-keeps pool is l h (rw p tt))
