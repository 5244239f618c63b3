-- ===== src/Examples/Listeners.antt =====
-- Runs of the event listeners.
use gosupervisor.Prelude.{
  ◌≡◌, ◌≢◌, refl, ◌++◌, pos, true, false, List, [], ◌∷◌, some, arith, Text, codes, text_eq,
  trim_space, length, last_n, lookup, decimal, has-IsFree, has,
}
use gosupervisor.Events.{Event}
use gosupervisor.Listener.Queue.{new_event_queue, push, pop}
use gosupervisor.Listener.Wire.{build_event_mask, encode_event, event_body}
use gosupervisor.Listener.Wire.Frame.{read_frame, read_frame-encode_event}
use gosupervisor.Listener.Result.{read_result, read_result-result}
use gosupervisor.Listener.Protocol.{
  await_ready, await_result, Loop, Input, child_line, pop_event, child_result, emit, step, run,
}
use gosupervisor.Listener.Protocol.Order.{all_pushes, all_answers, NeverFull, run_in_order}
use gosupervisor.Listener.Protocol.Overflow.{run-overflow_loses}
use gosupervisor.Listener.Manager.{EventListenerConfig, EventListener, new_manager}
use gosupervisor.Listener.Manager.Subscriptions.{emit_all, wanted, emit_all-last_n}
use gosupervisor.Listener.Manager.Reload.{running, Life, Service, StartConfig, reload}
use gosupervisor.Listener.Manager.Reload.Fresh.{reload-fresh}
use gosupervisor.Examples.{exit_event, start_event}

abbrev events : List Event
events = exit_event 1 ∷ exit_event 2 ∷ exit_event 3 ∷ []

abbrev names : List Text
names = codes "TICK_5" ∷ codes " PROCESS_STATE_EXITED" ∷ []

read_frame-encode_event_example :
    read_frame
      (encode_event (exit_event 7) (codes "gosupervisor") 0 1 (codes "pool") ++ codes "ver:")
    ≡ some (event_body (exit_event 7), codes "ver:")
read_frame-encode_event_example =
    read_frame-encode_event (exit_event 7) (codes "gosupervisor") 0 1 (codes "pool") (codes "ver:")
      (has-IsFree 10 (codes "gosupervisor") (unfold has in refl))
      (has-IsFree 10 (codes "pool") (unfold has in refl)) (unfold event_body decimal in omega arith)

read_result-result_example :
    read_result
      ((codes "RESULT " ++ decimal (length (codes "O\nK"))) ++ 10 ∷ (codes "O\nK" ++ codes "READY"))
    ≡ some (codes "O\nK", codes "READY")
read_result-result_example = read_result-result (codes "O\nK") (codes "READY") (omega arith)

abbrev waiting_loop : Loop
waiting_loop = record {
  phase = await_ready;
  queue = record { events = exit_event 1 ∷ exit_event 2 ∷ []; cap = 3; closed = false };
  pool_serial = 0;
  written = [];
}

abbrev inputs : List Input
inputs =
    emit (exit_event 3)
    ∷ child_line (codes "READY")
    ∷ pop_event true
    ∷ child_result (some (codes "OK"))
    ∷ []

inputs_fit : NeverFull (codes "p") inputs waiting_loop
unfolding NeverFull step text_eq trim_space pop push
inputs_fit = (refl, (refl, (refl, (refl, tt))))

run_in_order_example :
    all_answers (codes "p") inputs waiting_loop
      ++ (run (codes "p") inputs waiting_loop).queue.events
    ≡ waiting_loop.queue.events ++ all_pushes inputs
run_in_order_example = run_in_order (codes "p") inputs waiting_loop refl inputs_fit

abbrev full_loop : Loop
full_loop = record waiting_loop {
  phase = await_result (exit_event 1);
  queue = record { events = exit_event 1 ∷ exit_event 2 ∷ []; cap = 2; closed = false };
}

run-overflow_loses_example :
    let l' =
      run (codes "p") (emit (exit_event 3) ∷ child_result (some (codes "OK")) ∷ []) full_loop in
    (l'.queue.events ≡ [] ++ exit_event 3 ∷ [])
    × (l'.written ≡ full_loop.written)
    × (l'.phase ≡ await_ready)
run-overflow_loses_example =
    run-overflow_loses (codes "p") (exit_event 1) (exit_event 2) (exit_event 3) [] full_loop refl
      refl refl

abbrev listener_config : EventListenerConfig
listener_config = record {
  name = codes "mail";
  events = codes "PROCESS_STATE_EXITED" ∷ [];
  buffer_size = pos 2;
}

abbrev configs : List (Text × EventListenerConfig)
configs = (codes "other", listener_config) ∷ (codes "mail", listener_config) ∷ []

emit_all-last_n_example :
    (l : EventListener) × (lookup
        (codes "mail")
        (emit_all (start_event 1 ∷ events) (new_manager configs)).listeners
      ≡ some l)
    × (l.queue.events
        ≡ last_n
            (new_event_queue {A = Event} (pos 2)).cap
            (wanted (build_event_mask listener_config.events) (start_event 1 ∷ events)))
emit_all-last_n_example =
    emit_all-last_n (codes "mail") configs listener_config (start_event 1 ∷ events)
      (unfold lookup text_eq in refl)

abbrev new_services : List (Text × StartConfig)
new_services = (codes "mail", record { listener = listener_config; auto_start = true }) ∷ []

-- Before the reload an event waits in the queue of a listener that runs.
abbrev old_service : Service
old_service = record {
  manager = emit_all (exit_event 9 ∷ []) (new_manager configs);
  lives = (codes "mail", record { auto_start = true; state = running }) ∷ [];
}

reload-fresh_example :
    ((l : EventListener) × (lookup
          (codes "mail")
          (emit_all events (reload (λ name. true) new_services old_service).0.manager).listeners
        ≡ some l)
      × (l.queue.events
          ≡ last_n
              (new_event_queue {A = Event} (pos 2)).cap
              (wanted (build_event_mask listener_config.events) events)))
    × (lookup (codes "mail") (reload (λ name. true) new_services old_service).0.lives
        ≡ some (record { auto_start = true; state = running }))
    × ((n : Text) (life : Life)
        → lookup n (reload (λ name. true) new_services old_service).1.lives ≡ some life
        → life.state ≢ running)
reload-fresh_example =
    reload-fresh (λ name. true) new_services old_service events (codes "mail")
      (record { listener = listener_config; auto_start = true }) (unfold lookup text_eq in refl)
