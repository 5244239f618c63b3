-- ===== src/Events/History.antt =====
-- internal/process/resource_history.go: which samples `ResourceHistory.Snapshot` returns.
use gosupervisor.Ring.{RingBuffer, new_ring_buffer, push_all}
use gosupervisor.Ring.View.{push_all-view}
use gosupervisor.Events.{ResourceSample, skip_before, history_snapshot}
use gosupervisor.Prelude.{
  ltb, if◌then◌else◌, length, drop, last_n, ℕ, zero, suc, ◌+◌, ◌-◌, ◌≤◌, ◌<◌, ◌≡◌, refl, ap, some,
  List, [], ◌∷◌, arith, pos,
}

module _ {F : Type 0} where
  -- The samples in a list that are at most `since` old at `now`, wherever they stand.
  unfoldable pub recent : ℕ → ℕ → List (ResourceSample F) → List (ResourceSample F)
  recent now since [] = []
  recent now since (x ∷ xs) =
      if ltb (x.timestamp + since) now then recent now since xs else x ∷ recent now since xs

  -- No sample is older than `t`, and each is at least as new as those before it.
  abbrev pub IsChronological : ℕ → List (ResourceSample F) → Type 0
  IsChronological t [] = Unit
  IsChronological t (x ∷ xs) = (t ≤ x.timestamp) × IsChronological x.timestamp xs

  recent-IsChronological :
      (now since t : ℕ) (xs : List (ResourceSample F))
      → IsChronological t xs
      → now ≤ t + since
      → recent now since xs ≡ xs
  unfolding recent
  recent-IsChronological now since t [] c h = refl
  recent-IsChronological now since t (x ∷ xs) c h =
      ground (arith, recent-IsChronological now since x.timestamp xs c.1)

  pub skip_before-eq-recent :
      (now since t : ℕ) (xs : List (ResourceSample F))
      → IsChronological t xs
      → skip_before now since xs ≡ recent now since xs
  unfolding skip_before recent
  skip_before-eq-recent now since t [] c = refl
  skip_before-eq-recent now since t (x ∷ xs) c = ground (
    arith,
    skip_before-eq-recent now since x.timestamp xs c.1,
    recent-IsChronological now since x.timestamp xs c.1,
  )

  IsChronological-le :
      (s t : ℕ) (xs : List (ResourceSample F)) → s ≤ t → IsChronological t xs → IsChronological s xs
  IsChronological-le s t [] h c = tt
  IsChronological-le s t (x ∷ xs) h c = (omega (arith, c.0), c.1)

  drop-IsChronological :
      (n t : ℕ) (xs : List (ResourceSample F))
      → IsChronological t xs
      → IsChronological t (drop n xs)
  drop-IsChronological zero t xs c = c
  drop-IsChronological (suc n) t [] c = tt
  drop-IsChronological (suc n) t (x ∷ xs) c =
      drop-IsChronological n t xs (IsChronological-le t x.timestamp xs c.0 c.1)

  -- A history that was filled in the order of time returns exactly those of its last `capacity`
  -- samples that are at most the given positive duration old, wherever the cut falls.
  pub history_snapshot-recent :
      (blank : ResourceSample F) (capacity now n : ℕ) (xs : List (ResourceSample F))
      → 0 < capacity
      → IsChronological 0 xs
      → (rh : RingBuffer (ResourceSample F)) × (push_all xs (new_ring_buffer blank capacity)
          ≡ some rh)
        × (history_snapshot now (pos (suc n)) rh ≡ some (recent now (suc n) (last_n capacity xs)))
  unfolding history_snapshot
  history_snapshot-recent blank capacity now n xs h c =
      let (rh, e, all, _, _) = push_all-view blank capacity xs h in
      (
        rh,
        e,
        rw (all, history_snapshot)
            (ap some (
              skip_before-eq-recent now (suc n) 0 (last_n capacity xs)
                (drop-IsChronological (length xs - capacity) 0 xs c))),
      )
