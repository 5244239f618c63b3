-- ===== src/Listener/Queue.antt =====
-- internal/eventlistener/listener.go: the bounded queue of a listener, which drops its oldest entry
-- when it is full. The mutex makes each method one step; a `Pop` that would wait is `blocked`.
pub mod Window
use gosupervisor.Prelude.{
  ℕ, ℤ, is_positive, nat_of, Bool, true, false, List, [], ◌∷◌, ◌++◌, leb, if◌then◌else◌, length,
}

pub record EventQueue {ℓ} (A : Type ℓ) : Type ℓ where
  pub events : List A
  pub cap : ℕ
  pub closed : Bool

pub data Popped {ℓ} (A : Type ℓ) : Type ℓ where
  blocked shut : Popped A
  front : A → Popped A

module _ {ℓ} {A : Type ℓ} where
  abbrev pub rest : List A → List A
  rest [] = []
  rest (e ∷ es) = es

  unfoldable pub new_event_queue : ℤ → EventQueue A
  new_event_queue capacity = record {
    events = [];
    cap = if is_positive capacity then nat_of capacity else 1;
    closed = false;
  }

  -- `events[1:]` of an empty slice would panic, but `cap` is at least 1 and the queue full there.
  unfoldable pub push : A → EventQueue A → EventQueue A
  push e q =
      if leb q.cap (length q.events)
      then record q { events = rest q.events ++ e ∷ [] }
      else record q { events = q.events ++ e ∷ [] }

  unfoldable pub pop_events : List A → Bool → Popped A
  pop_events (e ∷ es) closed = front e
  pop_events [] true = shut
  pop_events [] false = blocked

  unfoldable pub pop : EventQueue A → Popped A
  unfolding pop_events
  pop q = pop_events q.events q.closed

  unfoldable pub close : EventQueue A → EventQueue A
  close q = record q { closed = true }

  unfoldable pub remove_first : EventQueue A → EventQueue A
  remove_first q = record q { events = rest q.events }

  unfoldable pub len : EventQueue A → ℕ
  len q = length q.events
