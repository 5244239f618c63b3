-- ===== src/Examples/Buffers.antt =====
-- Runs of the ring buffer, the resource history, the event fan-out and the rate limiter.
use gosupervisor.Prelude.{
  ℕ, suc, ◌+◌, ◌-◌, ◌*◌, ◌≤◌, ◌≡◌, pos, List, [], ◌∷◌, some, arith, codes, length, last_n, min,
}
use gosupervisor.Ring.{RingBuffer, new_ring_buffer, push_all, snapshot_all, snapshot_last, len}
use gosupervisor.Ring.View.{push_all-view}
use gosupervisor.Events.{Event, ResourceSample}
use gosupervisor.Limiter.{second, new_rate_limiter}
use gosupervisor.Limiter.Budget.{Op, request, pass, tick, run, fresh, run-within_budget}
use gosupervisor.Examples.{exit_event, start_event}

abbrev numbers : List ℕ
numbers = 1 ∷ 2 ∷ 3 ∷ 4 ∷ 5 ∷ []

push_all-view_example :
    (rb : RingBuffer ℕ) × (push_all numbers (new_ring_buffer 0 3) ≡ some rb)
    × (snapshot_all rb ≡ some (last_n 3 numbers))
    × ((n : ℕ) → snapshot_last n rb ≡ some (last_n (min n 3) numbers))
    × (len rb ≡ min 3 (length numbers))
push_all-view_example = push_all-view 0 3 numbers (omega arith)

abbrev sample : ℕ → ResourceSample ℕ
sample t = record { timestamp = t; cpu = 0; memory = t }

abbrev samples : List (ResourceSample ℕ)
samples = sample 1 ∷ sample 4 ∷ sample 6 ∷ sample 9 ∷ []

abbrev count_calls : Event → ℕ → ℕ
count_calls e n = suc n

abbrev events : List Event
events = start_event 1 ∷ exit_event 1 ∷ start_event 2 ∷ []

abbrev ops : List Op
ops = request (codes "a") ∷ request (codes "a") ∷ pass 500000000 ∷ request (codes "b") ∷ tick ∷ []

run-within_budget_example :
    let limit = new_rate_limiter (pos 1) (pos 2) in
    let end = run (10 * second) (codes "a") ops (fresh (pos 1) (pos 2) 7) in
    end.granted * second ≤ limit.burst * second + (end.now - 7) * limit.rps
run-within_budget_example =
    run-within_budget (pos 1) (pos 2) 7 (10 * second) (codes "a") ops
      (unfold new_rate_limiter in omega arith)
