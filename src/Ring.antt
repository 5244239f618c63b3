-- ===== src/Ring.antt =====
-- internal/process/ringbuffer.go: the generic ring buffer. `none` is a run-time panic: a read or
-- a write outside of `buf`, and `%` by a capacity of zero. The mutex makes each method one step.
pub mod View
use gosupervisor.Prelude.{
  ℕ, zero, suc, ◌+◌, ◌-◌, ◌%◌, ◌<◌, min, Bool, true, false, ◌||◌, List, [], ◌∷◌, Option, none, some,
  ltb, ◌==◌, if◌then◌else◌, length, get_elem?, set, take, replicate,
}

pub record RingBuffer {ℓ} (A : Type ℓ) : Type ℓ where
  pub buf : List A
  pub capacity : ℕ
  pub pos : ℕ
  pub full : Bool

module _ {ℓ} {A : Type ℓ} where
  -- `blank` is the zero value that `make` fills the slice with.
  unfoldable pub new_ring_buffer : A → ℕ → RingBuffer A
  new_ring_buffer blank capacity = record {
    buf = replicate capacity blank;
    capacity = capacity;
    pos = 0;
    full = false;
  }

  unfoldable pub push : A → RingBuffer A → Option (RingBuffer A)
  push v rb =
      let pos' = (rb.pos + 1) % rb.capacity in
      if ltb rb.pos (length rb.buf)
      then some (record rb { buf = set rb.buf rb.pos v; pos = pos'; full = pos' == 0 || rb.full })
      else none

  unfoldable pub len : RingBuffer A → ℕ
  len rb = if rb.full then rb.capacity else rb.pos

  -- The loop `for i := k; i < k + n; i++ { result[i] = buf[index(i)] }`.
  unfoldable pub gather : List A → (ℕ → ℕ) → ℕ → ℕ → Option (List A)
  gather buf index k zero = some []
  gather buf index k (suc n) = elim (get_elem? buf (index k)) [
    | none ↦ none
    | some x ↦ elim (gather buf index (k + 1) n) [ none ↦ none | some xs ↦ some (x ∷ xs) ]
  ]

  unfoldable pub snapshot_all : RingBuffer A → Option (List A)
  unfolding gather
  snapshot_all rb =
      if rb.full
      then gather rb.buf (λ i. (rb.pos + i) % rb.capacity) 0 rb.capacity
      else some (take rb.pos rb.buf)

  -- The index `(pos - n + i + capacity) % capacity` of the source, with the subtraction last: `n`
  -- is at most the capacity there, so nothing is lost at 0.
  unfoldable pub snapshot_last : ℕ → RingBuffer A → Option (List A)
  unfolding gather len
  snapshot_last n rb =
      let size = len rb in
      let m = if ltb size n then size else n in
      gather rb.buf (λ i. (rb.pos + i + rb.capacity - m) % rb.capacity) 0 m

  -- Any number of `Push` calls, from the oldest to the newest.
  unfoldable pub push_all : List A → RingBuffer A → Option (RingBuffer A)
  unfolding push
  push_all [] rb = some rb
  push_all (v ∷ vs) rb = elim (push v rb) [ none ↦ none | some rb' ↦ push_all vs rb' ]
