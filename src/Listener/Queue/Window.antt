-- ===== src/Listener/Queue/Window.antt =====
-- internal/eventlistener/listener.go: what a queue holds after pushes and removals.
use mathlib.Core.List.{append_assoc, append-nil}
use gosupervisor.Listener.Queue.{EventQueue, new_event_queue, push, rest, len}
use gosupervisor.Prelude.{
  if◌then◌else◌, length, length-append, drop, length-drop, drop-append, last_n, is_positive, nat_of,
  ℤ, ℕ, zero, suc, ◌-◌, ◌≤◌, ◌<◌, ◌≡◌, refl, sym, ap, ◌∙◌, subst, List, [], ◌∷◌, ◌++◌, arith,
  dec_lt, pos, negsuc,
}

cap_pos : (z : ℤ) → 0 < (if is_positive z then nat_of z else 1)
cap_pos (pos zero) = omega arith
cap_pos (pos (suc n)) = omega arith
cap_pos (negsuc n) = omega arith

module _ {ℓ} {A : Type ℓ} where
  unfoldable pub push_all : List A → EventQueue A → EventQueue A
  push_all [] q = q
  push_all (e ∷ es) q = push_all es (push e q)

  rest-drop : (n : ℕ) (xs : List A) → rest (drop n xs) ≡ drop (suc n) xs
  rest-drop zero [] = refl
  rest-drop zero (x ∷ xs) = refl
  rest-drop (suc n) [] = refl
  rest-drop (suc n) (x ∷ xs) = rest-drop n xs

  window_full :
      (n : ℕ) (e : A) (h : List A)
      → 0 < n
      → n ≤ length h
      → rest (last_n n h) ++ e ∷ [] ≡ last_n n (h ++ e ∷ [])
  window_full n e h c p =
      let size = length-append h (e ∷ []) in
      let start : suc (length h - n) ≡ length (h ++ e ∷ []) - n = omega (arith, size) in
      rw rest-drop (
        sym (drop-append (suc (length h - n)) h (e ∷ []) (omega arith))
        ∙ ap (λ k. drop k (h ++ e ∷ [])) start)

  window_room :
      (n : ℕ) (e : A) (h : List A) → length h < n → last_n n h ++ e ∷ [] ≡ last_n n (h ++ e ∷ [])
  window_room n e h p =
      let size = length-append h (e ∷ []) in
      let short : length h - n ≡ 0 = omega arith in
      let short' : length (h ++ e ∷ []) - n ≡ 0 = omega (arith, size) in rw (short, short')

  drop-nil : (n : ℕ) → drop {A = A} n [] ≡ []
  drop-nil zero = refl
  drop-nil (suc n) = refl

  push-last_n :
      (e : A) (h : List A) (q : EventQueue A)
      → 0 < q.cap
      → q.events ≡ last_n q.cap h
      → (push e q).events ≡ last_n q.cap (h ++ e ∷ [])
  unfolding push
  push-last_n e h q c w =
      let size : length q.events ≡ length h - (length h - q.cap) =
        ap length w ∙ length-drop (length h - q.cap) h in
      elim (dec_lt (length h) q.cap) [
        | yes lt ↦ ground (arith, size, window_room q.cap e h lt)
        | no ge ↦ ground (arith, size, window_full q.cap e h c (omega arith))
      ]

  push-cap : (e : A) (q : EventQueue A) → ((push e q).cap ≡ q.cap) × ((push e q).closed ≡ q.closed)
  unfolding push
  push-cap e q = ground arith

  push_all-window :
      (es h : List A) (q : EventQueue A)
      → 0 < q.cap
      → q.events ≡ last_n q.cap h
      → (push_all es q).events ≡ last_n q.cap (h ++ es)
  unfolding push_all
  push_all-window [] h q c w = rw (append-nil h) w
  push_all-window (e ∷ es) h q c w =
      let same = (push-cap e q).0 in
      let next = push-last_n e h q c w in
      subst (λ k. (push_all es (push e q)).events ≡ last_n k (h ++ e ∷ es)) same
        (push_all-window es (h ++ e ∷ []) (push e q) (omega arith)
            (next ∙ ap (λ k. last_n k (h ++ e ∷ [])) (sym same))
          ∙ ap (last_n (push e q).cap) (append_assoc h (e ∷ []) es))

  -- A new queue of any configured capacity, that nothing is taken from, holds the last events
  -- pushed, in their order: as many as its capacity, or one where that is not positive.
  pub push_all-last_n :
      (capacity : ℤ) (es : List A)
      → let q = new_event_queue capacity in
        (0 < q.cap) × ((push_all es q).events ≡ last_n q.cap es) × (len (push_all es q) ≤ q.cap)
  unfolding new_event_queue len
  push_all-last_n capacity es =
      let q : EventQueue A = new_event_queue capacity in
      let some_room : 0 < q.cap = cap_pos capacity in
      let window = push_all-window es [] q some_room (sym (drop-nil (0 - q.cap))) in
      (some_room, window, omega (arith, ap length window, length-drop (length es - q.cap) es))
