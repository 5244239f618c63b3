-- ===== src/Examples/Brokers.antt =====
-- Runs of the broadcast to the browsers.
use gosupervisor.Prelude.{◌≡◌, refl, List, [], ◌∷◌, ◌++◌, Option, some, arith, Text, codes}
use gosupervisor.Events.{Event}
use gosupervisor.Broker.{SseBroker, subscribe, send, frame}
use gosupervisor.Broker.Order.{
  Op, join, leave, tell, read, buffer_of, run, all_told, all_taken, serves, after, ServedThroughout,
  run-in_order,
}
use gosupervisor.Examples.{exit_event}

abbrev marshal : Event → Option Text
marshal e = some (codes "{}")

-- Clients 0 and 1 have joined.
abbrev broker : SseBroker
broker = subscribe (subscribe (record { clients = []; next = 0 }))

abbrev ops : List Op
ops = tell (exit_event 1) ∷ join ∷ read 0 ∷ tell (exit_event 2) ∷ leave 1 ∷ read 1 ∷ []

served : ServedThroughout marshal 0 ops []
unfolding ServedThroughout serves after send frame
served = (refl, (refl, (refl, (refl, (refl, (refl, tt))))))

run-in_order_example :
    (left : List Text) × (buffer_of 0 (run marshal 0 ops broker).clients ≡ some left)
    × (all_taken marshal 0 ops [] ++ left ≡ [] ++ all_told marshal 0 ops)
run-in_order_example =
    run-in_order marshal 0 ops broker [] (unfold subscribe in omega arith)
      (unfold subscribe buffer_of in refl) served
