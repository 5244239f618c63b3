-- ===== src/Broker/Order.antt =====
-- internal/web/sse_broker.go: what one client receives, and in which order.
use mathlib.Core.List.{append_assoc, append-nil}
use gosupervisor.Prelude.{
  ℕ, ◌<◌, ◌≡◌, refl, ap, sym, ◌∙◌, Bool, true, false, not, List, [], ◌∷◌, ◌++◌, Option, none, some,
  arith, Text, ltb, ◌==◌, length, if◌then◌else◌, Option-cases, inl, inr,
}
use gosupervisor.Events.{Event}
use gosupervisor.Broker.{
  SseBroker, capacity, subscribe, remove_client, unsubscribe, frame, send, send_each, broadcast,
  rest, drain, receive,
}

unfoldable pub buffer_of : ℕ → List (ℕ × List Text) → Option (List Text)
buffer_of k [] = none
buffer_of k ((i, buffer) ∷ cs) = if i == k then some buffer else buffer_of k cs

pub data Op : Type 0 where
  join : Op
  leave : ℕ → Op
  tell : Event → Op
  read : ℕ → Op

abbrev first : List Text → List Text
first [] = []
first (f ∷ fs) = f ∷ []

buffer-send_each :
    (k : ℕ) (f : Text) (cs : List (ℕ × List Text)) (buffer : List Text)
    → buffer_of k cs ≡ some buffer
    → buffer_of k (send_each f cs) ≡ some (send f buffer)
unfolding buffer_of send_each
buffer-send_each k f [] buffer h = cc
buffer-send_each k f ((i, b) ∷ cs) buffer h =
    ground (arith, buffer-send_each k f cs buffer, ap (send f))

buffer-drain :
    (k j : ℕ) (cs : List (ℕ × List Text)) (buffer : List Text)
    → buffer_of k cs ≡ some buffer
    → buffer_of k (drain j cs) ≡ some (if j == k then rest buffer else buffer)
unfolding buffer_of drain
buffer-drain k j [] buffer h = cc
buffer-drain k j ((i, b) ∷ cs) buffer h = ground (arith, buffer-drain k j cs buffer)

buffer-remove :
    (k j : ℕ) (cs : List (ℕ × List Text))
    → (j == k) ≡ false
    → buffer_of k (remove_client j cs) ≡ buffer_of k cs
unfolding buffer_of remove_client
buffer-remove k j [] h = refl
buffer-remove k j ((i, b) ∷ cs) h = ground (arith, buffer-remove k j cs)

first-rest : (buffer : List Text) → first buffer ++ rest buffer ≡ buffer
first-rest [] = refl
first-rest (f ∷ fs) = refl

module _ (marshal : Event → Option Text) (k : ℕ) where
  pub step : Op → SseBroker → SseBroker
  step join b = subscribe b
  step (leave j) b = unsubscribe j b
  step (tell e) b = broadcast marshal e b
  step (read j) b = receive j b

  -- The frames that an operation broadcasts, and those that client `k` takes.
  pub told : Op → List Text
  told (tell e) = elim (marshal e) [ none ↦ [] | some json ↦ frame json ∷ [] ]
  told _ = []

  pub taken : Op → List Text → List Text
  taken (read j) buffer = if j == k then first buffer else []
  taken _ buffer = []

  -- The operation is not client `k`'s leaving, and no broadcast into its full buffer.
  unfoldable pub serves : Op → List Text → Bool
  serves (leave j) buffer = not (j == k)
  serves (tell e) buffer = ltb (length buffer) capacity
  serves _ buffer = true

  unfoldable pub after : Op → List Text → List Text
  after (tell e) buffer = elim (marshal e) [ none ↦ buffer | some json ↦ send (frame json) buffer ]
  after (read j) buffer = if j == k then rest buffer else buffer
  after _ buffer = buffer

  step-next : (o : Op) (b : SseBroker) → k < b.next → k < (step o b).next
  unfolding step subscribe unsubscribe broadcast receive
  step-next join b h = omega arith
  step-next (leave j) b h = h
  step-next (tell e) b h = ground arith
  step-next (read j) b h = h

  broadcast-none : (e : Event) (b : SseBroker) → marshal e ≡ none → broadcast marshal e b ≡ b
  unfolding broadcast
  broadcast-none e b h = rw (broadcast, h) refl

  broadcast-some :
      (e : Event) (b : SseBroker) (json : Text)
      → marshal e ≡ some json
      → broadcast marshal e b ≡ record b { clients = send_each (frame json) b.clients }
  unfolding broadcast
  broadcast-some e b json h = rw (broadcast, h) refl

  step-buffer :
      (o : Op) (b : SseBroker) (buffer : List Text)
      → k < b.next
      → buffer_of k b.clients ≡ some buffer
      → serves o buffer ≡ true
      → buffer_of k (step o b).clients ≡ some (after o buffer)
  unfolding step serves after
  step-buffer join b buffer h e s = unfold subscribe buffer_of in ground arith
  step-buffer (leave j) b buffer h e s =
      unfold unsubscribe in buffer-remove k j b.clients (ground arith) ∙ e
  step-buffer (tell ev) b buffer h e s = elim (Option-cases (marshal ev)) [
    | inl unknown ↦ rw (broadcast-none ev b unknown, after, unknown) e
    | inr (json, known) ↦
        rw (broadcast-some ev b json known, after, known)
          (buffer-send_each k (frame json) b.clients buffer e)
  ]
  step-buffer (read j) b buffer h e s = unfold receive in buffer-drain k j b.clients buffer e

  step-told :
      (o : Op) (buffer : List Text)
      → serves o buffer ≡ true
      → buffer ++ told o ≡ taken o buffer ++ after o buffer
  unfolding serves told taken after
  step-told join buffer s = append-nil buffer
  step-told (leave j) buffer s = append-nil buffer
  step-told (tell e) buffer s = unfold send in ground (arith, append-nil buffer)
  step-told (read j) buffer s = ground (arith, append-nil buffer, first-rest buffer)

  pub run : List Op → SseBroker → SseBroker
  run [] b = b
  run (o ∷ os) b = run os (step o b)

  pub all_told : List Op → List Text
  all_told [] = []
  all_told (o ∷ os) = told o ++ all_told os

  -- What client `k` takes in a run, from its buffer at the start.
  pub all_taken : List Op → List Text → List Text
  all_taken [] buffer = []
  all_taken (o ∷ os) buffer = taken o buffer ++ all_taken os (after o buffer)

  unfoldable pub ServedThroughout : List Op → List Text → Type 0
  ServedThroughout [] buffer = Unit
  ServedThroughout (o ∷ os) buffer = (serves o buffer ≡ true) × ServedThroughout os (after o buffer)

  -- As long as a client that has subscribed does not leave, and no broadcast meets its buffer full,
  -- whatever other clients join, leave and read: the frames that it takes, followed by those that
  -- its buffer still holds, are those that it held at first, followed by all that were broadcast,
  -- in that order.
  pub run-in_order :
      (os : List Op) (b : SseBroker) (buffer : List Text)
      → k < b.next
      → buffer_of k b.clients ≡ some buffer
      → ServedThroughout os buffer
      → (left : List Text) × (buffer_of k (run os b).clients ≡ some left)
        × (all_taken os buffer ++ left ≡ buffer ++ all_told os)
  unfolding run all_told all_taken ServedThroughout
  run-in_order [] b buffer h e s = (buffer, e, sym (append-nil buffer))
  run-in_order (o ∷ os) b buffer h e s =
      let (left, found, same) =
        run-in_order os (step o b) (after o buffer) (step-next o b h)
          (step-buffer o b buffer h e s.0) s.1 in
      (
        left,
        found,
        append_assoc (taken o buffer) (all_taken os (after o buffer)) left
            ∙ ap (λ fs. taken o buffer ++ fs) same
            ∙ sym (append_assoc (taken o buffer) (after o buffer) (all_told os))
            ∙ ap (λ fs. fs ++ all_told os) (sym (step-told o buffer s.0))
            ∙ append_assoc buffer (told o) (all_told os),
      )
