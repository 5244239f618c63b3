-- ===== src/Ring/View.antt =====
-- internal/process/ringbuffer.go: what a ring buffer holds, as a window on the list of all pushes.
use mathlib.Core.Path.{◌≡⟨◌⟩◌, ◌∎}
use mathlib.Core.List.{append-nil, append_assoc}
use gosupervisor.Ring.{
  RingBuffer, new_ring_buffer, push, len, gather, snapshot_all, snapshot_last, push_all,
}
use native.Mathlib.Nat.{
  add-zero, zero-add, sub-eq-zero_of_le, le_of_lt, div-add-mod, mod-add-mod, mod-eq_of_lt, mod_self,
  mod-lt, add-mod_right,
}
use gosupervisor.Prelude.{
  ltb, leb, ◌==◌, if◌then◌else◌, lt→ltb, Nat-cases, length, get_elem?, set, length-append,
  length-set, get_elem?-set_self, get_elem?-set_ne, take, drop, length-drop, length-replicate,
  get_elem?-drop, get_elem?-append_left, get_elem?-append_end, last_n, ℕ, suc, ◌+◌, ◌-◌, ◌%◌, ◌≤◌,
  ◌<◌, min, ◌≡◌, refl, sym, ap, ◌∙◌, subst, fun_ext, ◌≢◌, ◌⊎◌, inl, inr, Bool, true, false, ◌||◌,
  some, List, [], ◌∷◌, ◌++◌, arith, dec_lt,
}

-- Two indices less than `c` apart never share a slot.
mod_apart : (i j c : ℕ) → i < j → j < i + c → i % c ≢ j % c
mod_apart i j c h k e = grind (arith, div-add-mod i c, div-add-mod j c)

tick_full :
    (n c : ℕ) (full : Bool)
    → 0 < c
    → full ≡ leb c n
    → (((n % c + 1) % c == 0) || full) ≡ leb c (n + 1)
tick_full n c full h e = elim (Nat-cases (n + 1) c) [
  | inl lt ↦ ground (arith, mod-eq_of_lt {n = n} {m = c} (omega arith), mod-eq_of_lt lt)
  | inr (inl eq) ↦ ground (arith, mod-add-mod n c 1, mod_self c)
  | inr (inr gt) ↦ ground arith
]

add_assoc_suc : (k i : ℕ) → k + 1 + i ≡ k + suc i
add_assoc_suc k i = omega arith

pick_eq_min : (a n : ℕ) → (if ltb a n then a else n) ≡ min n a
pick_eq_min a n = ground arith

window_index : (n i m c : ℕ) → m ≤ n → m ≤ c → (n % c + i + c - m) % c ≡ (n - m + i) % c
window_index n i m c p q =
    (n % c + i + c - m) % c
    ≡⟨ ap (λ k. k % c) (omega arith) ⟩ (n % c + (i + (c - m))) % c
    ≡⟨ mod-add-mod n c (i + (c - m)) ⟩ (n + (i + (c - m))) % c
    ≡⟨ ap (λ k. k % c) (omega arith) ⟩ (n - m + i + c) % c
    ≡⟨ add-mod_right (n - m + i) c ⟩ (n - m + i) % c ∎

module _ {ℓ} {A : Type ℓ} where
  -- The buffer holds the last `capacity` entries of the history `h`: entry `i` of it is in slot
  -- `i % capacity`.
  pub record Holds (h : List A) (rb : RingBuffer A) : Type ℓ where
    pub sized : length rb.buf ≡ rb.capacity
    pub room : 0 < rb.capacity
    pub at : rb.pos ≡ length h % rb.capacity
    pub wrapped : rb.full ≡ leb rb.capacity (length h)
    pub kept :
        (i : ℕ)
        → i < length h
        → length h ≤ i + rb.capacity
        → get_elem? rb.buf (i % rb.capacity) ≡ get_elem? h i

  pub new_ring_buffer-Holds : (blank : A) (c : ℕ) → 0 < c → Holds [] (new_ring_buffer blank c)
  unfolding new_ring_buffer
  new_ring_buffer-Holds blank c h = record {
    sized = length-replicate c blank;
    room = h;
    at = sym (mod-eq_of_lt h);
    wrapped = ground arith;
    kept = λ i p q. elim p [ ];
  }

  kept-push :
      (h : List A) (v : A) (rb : RingBuffer A) (held : Holds h rb) (i : ℕ)
      → i < length h + 1
      → length h + 1 ≤ i + rb.capacity
      → get_elem? (set rb.buf (length h % rb.capacity) v) (i % rb.capacity)
        ≡ get_elem? (h ++ v ∷ []) i
  kept-push h v rb held i p q = elim (dec_lt i (length h)) [
    | yes lt ↦
        get_elem?-set_ne rb.buf v
          (λ e. mod_apart i (length h) rb.capacity lt (omega (arith, held.room)) (sym e))
        ∙ held.kept i lt (omega arith)
        ∙ sym (get_elem?-append_left h (v ∷ []) i lt)
    | no ge ↦
        let e : i ≡ length h = omega arith in
        rw e (
          get_elem?-set_self rb.buf (length h % rb.capacity) v
            (rw held.sized (mod-lt (length h) held.room))
          ∙ sym (get_elem?-append_end h v))
  ]

  -- A push never panics on such a buffer, and the buffer then holds the longer history.
  pub push-Holds :
      (h : List A) (v : A) (rb : RingBuffer A)
      → Holds h rb
      → (rb' : RingBuffer A) × (push v rb ≡ some rb')
        × Holds (h ++ v ∷ []) rb'
        × (rb'.capacity ≡ rb.capacity)
  unfolding push
  push-Holds h v rb held = (
    record rb {
      buf = set rb.buf rb.pos v;
      pos = (rb.pos + 1) % rb.capacity;
      full = ((rb.pos + 1) % rb.capacity == 0) || rb.full;
    },
    rw (lt→ltb rb.pos (length rb.buf) (rw (held.sized, held.at) (mod-lt (length h) held.room))),
    record {
      sized = length-set rb.buf rb.pos v ∙ held.sized;
      room = held.room;
      at = rw (held.at, length-append h (v ∷ [])) (mod-add-mod (length h) rb.capacity 1);
      wrapped =
          rw (held.at, length-append h (v ∷ []))
            (tick_full (length h) rb.capacity rb.full held.room held.wrapped);
      kept = λ i p q. rw held.at (
          kept-push h v rb held i (omega (arith, p, length-append h (v ∷ [])))
            (omega (arith, q, length-append h (v ∷ []))));
    },
    refl,
  )

  push_all-Holds :
      (h vs : List A) (rb : RingBuffer A)
      → Holds h rb
      → (rb' : RingBuffer A) × (push_all vs rb ≡ some rb')
        × Holds (h ++ vs) rb'
        × (rb'.capacity ≡ rb.capacity)
  unfolding push_all
  push_all-Holds h [] rb held = (rb, refl, rw (append-nil h) held, refl)
  push_all-Holds h (v ∷ vs) rb held =
      let (rb', e, held', c) = push-Holds h v rb held in
      let (rb'', e', held'', c') = push_all-Holds (h ++ v ∷ []) vs rb' held' in
      (rb'', rw (e, push_all) e', rw (append_assoc h (v ∷ []) vs) at held'', c' ∙ c)

  gather_lem :
      (buf : List A) (index : ℕ → ℕ) (xs : List A) (k : ℕ)
      → ((i : ℕ) → i < length xs → get_elem? buf (index (k + i)) ≡ get_elem? xs i)
      → gather buf index k (length xs) ≡ some xs
  unfolding gather
  gather_lem buf index [] k agree = refl
  gather_lem buf index (x ∷ xs) k agree =
      let first : get_elem? buf (index k) ≡ some x =
        ap (λ n. get_elem? buf (index n)) (sym (add-zero k)) ∙ agree 0 (omega arith) in
      let rest : gather buf index (k + 1) (length xs) ≡ some xs =
        gather_lem buf index xs (k + 1) (λ i p.
          ap (λ n. get_elem? buf (index n)) (add_assoc_suc k i) ∙ agree (suc i) (omega arith)) in
      rw (first, gather, rest)

  take_lem :
      (buf xs : List A)
      → ((i : ℕ) → i < length xs → get_elem? buf i ≡ get_elem? xs i)
      → take (length xs) buf ≡ xs
  take_lem buf [] agree = refl
  take_lem [] (x ∷ xs) agree = cc (agree 0 (omega arith))
  take_lem (y ∷ buf) (x ∷ xs) agree =
      cc (agree 0 (omega arith), take_lem buf xs (λ i p. agree (suc i) (omega arith)))

  -- The slots that a snapshot of the last `m` entries reads hold these entries.
  slot :
      (h : List A) (rb : RingBuffer A) (held : Holds h rb) (m i : ℕ)
      → m ≤ length h
      → m ≤ rb.capacity
      → i < m
      → get_elem? rb.buf ((rb.pos + i + rb.capacity - m) % rb.capacity)
        ≡ get_elem? (drop (length h - m) h) i
  slot h rb held m i p q r =
      rw (get_elem?-drop (length h - m) h i, held.at, window_index (length h) i m rb.capacity p q)
        (held.kept (length h - m + i) (omega arith) (omega arith))

  full_cases :
      (h : List A) (rb : RingBuffer A)
      → Holds h rb
      → (rb.full ≡ true) × (rb.capacity ≤ length h)
        ⊎ (rb.full ≡ false) × (length h < rb.capacity) × (rb.pos ≡ length h)
  full_cases h rb held = elim (dec_lt (length h) rb.capacity) [
    | yes lt ↦ inr (ground arith, lt, held.at ∙ mod-eq_of_lt lt)
    | no ge ↦ inl (ground arith, omega arith)
  ]

  gather_window :
      (h : List A) (rb : RingBuffer A) (m : ℕ)
      → Holds h rb
      → m ≤ length h
      → m ≤ rb.capacity
      → gather rb.buf (λ i. (rb.pos + i + rb.capacity - m) % rb.capacity) 0 m ≡ some (last_n m h)
  gather_window h rb m held p q =
      let index : ℕ → ℕ = λ i. (rb.pos + i + rb.capacity - m) % rb.capacity in
      let size : length (last_n m h) ≡ m = omega (arith, length-drop (length h - m) h) in
      ap (gather rb.buf index 0) (sym size)
      ∙ gather_lem rb.buf index (last_n m h) 0 (λ i r.
        ap (λ k. get_elem? rb.buf (index k)) (zero-add i)
        ∙ slot h rb held m i p q (omega (arith, size)))

  len-Holds : (h : List A) (rb : RingBuffer A) → Holds h rb → len rb ≡ min rb.capacity (length h)
  unfolding len
  len-Holds h rb held = elim (full_cases h rb held) [
    | inl (e, p) ↦ rw e (omega arith)
    | inr (e, p, q) ↦ rw e (omega arith)
  ]

  snapshot_last-Holds :
      (h : List A) (rb : RingBuffer A) (n : ℕ)
      → Holds h rb
      → snapshot_last n rb ≡ some (last_n (min n rb.capacity) h)
  unfolding snapshot_last
  snapshot_last-Holds h rb n held =
      let size = len-Holds h rb held in
      rw (pick_eq_min (len rb) n) (
        gather_window h rb (min n (len rb)) held (omega arith) (omega arith)
        ∙ ap (λ k. some (drop k h)) (omega arith))

  snapshot_all-Holds :
      (h : List A) (rb : RingBuffer A) → Holds h rb → snapshot_all rb ≡ some (last_n rb.capacity h)
  unfolding snapshot_all
  snapshot_all-Holds h rb held = elim (full_cases h rb held) [
    | inl (e, p) ↦ rw e (
        ap (λ index. gather rb.buf index 0 rb.capacity)
          (fun_ext (λ i. ap (λ k. k % rb.capacity) (omega arith)))
        ∙ gather_window h rb rb.capacity held p (omega arith))
    | inr (e, p, q) ↦
        rw (e, q)
          (ap some (
              take_lem rb.buf h (λ i r.
                ap (get_elem? rb.buf) (sym (mod-eq_of_lt {n = i} {m = rb.capacity} (omega arith)))
                ∙ held.kept i r (omega arith)))
            ∙ ap (λ k. some (drop k h)) (sym (sub-eq-zero_of_le (le_of_lt p))))
  ]

  -- After any pushes into a new buffer of positive capacity, no index was out of range, and the
  -- buffer shows the last `capacity` of them, oldest first; asked for `n`, it shows the last `n` of
  -- these; `Len` is their number.
  pub push_all-view :
      (blank : A) (capacity : ℕ) (vs : List A)
      → 0 < capacity
      → (rb : RingBuffer A) × (push_all vs (new_ring_buffer blank capacity) ≡ some rb)
        × (snapshot_all rb ≡ some (last_n capacity vs))
        × ((n : ℕ) → snapshot_last n rb ≡ some (last_n (min n capacity) vs))
        × (len rb ≡ min capacity (length vs))
  unfolding new_ring_buffer
  push_all-view blank capacity vs h =
      let (rb, e, held, c) =
        push_all-Holds [] vs (new_ring_buffer blank capacity)
          (new_ring_buffer-Holds blank capacity h) in
      (
        rb,
        e,
        subst (λ k. snapshot_all rb ≡ some (last_n k vs)) c (snapshot_all-Holds vs rb held),
        λ n.
            subst (λ k. snapshot_last n rb ≡ some (last_n (min n k) vs)) c
              (snapshot_last-Holds vs rb n held),
        subst (λ k. len rb ≡ min k (length vs)) c (len-Holds vs rb held),
      )
