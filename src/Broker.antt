-- ===== src/Broker.antt =====
-- internal/web/sse_broker.go: the broadcast of events to the browsers. A client's channel is its
-- buffer under the number that `make` gives it; `json.Marshal` is the parameter `marshal`.
pub mod Order
use gosupervisor.Prelude.{
  ℕ, ◌+◌, Bool, true, false, List, [], ◌∷◌, ◌++◌, Option, none, some, Text, codes, ltb, ◌==◌,
  length, if◌then◌else◌,
}
use gosupervisor.Events.{Event}

pub record SseBroker : Type 0 where
  pub clients : List (ℕ × List Text)
  -- The number of the next channel that is made.
  pub next : ℕ

abbrev pub capacity : ℕ
capacity = 64

unfoldable pub subscribe : SseBroker → SseBroker
subscribe b = record { clients = (b.next, []) ∷ b.clients; next = b.next + 1 }

unfoldable pub remove_client : ℕ → List (ℕ × List Text) → List (ℕ × List Text)
remove_client k [] = []
remove_client k ((i, buffer) ∷ cs) =
    let rest = remove_client k cs in if i == k then rest else (i, buffer) ∷ rest

unfoldable pub unsubscribe : ℕ → SseBroker → SseBroker
unfolding remove_client
unsubscribe k b = record b { clients = remove_client k b.clients }

unfoldable pub frame : Text → Text
frame json = codes "data: " ++ (json ++ 10 ∷ 10 ∷ [])

-- A send that does not wait: a full buffer stays as it is.
unfoldable pub send : Text → List Text → List Text
send f buffer = if ltb (length buffer) capacity then buffer ++ f ∷ [] else buffer

unfoldable pub send_each : Text → List (ℕ × List Text) → List (ℕ × List Text)
unfolding send
send_each f [] = []
send_each f ((i, buffer) ∷ cs) = (i, send f buffer) ∷ send_each f cs

unfoldable pub broadcast : (Event → Option Text) → Event → SseBroker → SseBroker
unfolding send_each frame
broadcast marshal e b = elim (marshal e) [
  | none ↦ b
  | some json ↦ record b { clients = send_each (frame json) b.clients }
]

abbrev pub rest : List Text → List Text
rest [] = []
rest (f ∷ fs) = fs

-- The client's handler takes the oldest frame of its channel.
unfoldable pub drain : ℕ → List (ℕ × List Text) → List (ℕ × List Text)
drain k [] = []
drain k ((i, buffer) ∷ cs) = (i, if i == k then rest buffer else buffer) ∷ drain k cs

unfoldable pub receive : ℕ → SseBroker → SseBroker
unfolding drain
receive k b = record b { clients = drain k b.clients }
