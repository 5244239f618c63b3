-- ===== src/Listener/Manager/Reload/Fresh.antt =====
-- internal/eventlistener/manager.go: what a reload leaves of the listeners and their events.
use gosupervisor.Prelude.{
  ◌≡◌, ◌≢◌, ap, ◌∙◌, inl, inr, Bool, List, [], ◌∷◌, some, arith, if◌then◌else◌, Text, text_eq,
  text_eq_iff, lookup, last_n, Bool-cases,
}
use gosupervisor.Events.{Event}
use gosupervisor.Listener.Queue.{new_event_queue}
use gosupervisor.Listener.Queue.Window.{push_all-last_n}
use gosupervisor.Listener.Wire.{build_event_mask}
use gosupervisor.Listener.Manager.{
  EventListener, EventListenerManager, new_event_listener, new_listeners,
}
use gosupervisor.Listener.Manager.Subscriptions.{
  emit_all, wanted, emit_all-queue, lookup-new_listeners,
}
use gosupervisor.Listener.Manager.Reload.{
  fresh, running, stopped, is_running, is_started, Life, Service, StartConfig, start_listener,
  start_lives, start_service, stop_life, stop_lives, stop_service, listener_configs, new_lives,
  reload,
}

lookup-listener_configs :
    (k : Text) (cfgs : List (Text × StartConfig)) (cfg : StartConfig)
    → lookup k cfgs ≡ some cfg
    → lookup k (listener_configs cfgs) ≡ some cfg.listener
unfolding lookup listener_configs
lookup-listener_configs k [] cfg h = cc h
lookup-listener_configs k ((j, c) ∷ cfgs) cfg h = elim (Bool-cases (text_eq j k)) [
  | inl same ↦ let is : c ≡ cfg = ground (arith, h, same) in rw same (ap (λ x. some x.listener) is)
  | inr other ↦ rw other (lookup-listener_configs k cfgs cfg (rw other at h))
]

-- What the start of a new listener leaves.
abbrev pub started : (ok : Bool) → StartConfig → Life
started ok cfg = record {
  auto_start = cfg.auto_start;
  state = if cfg.auto_start then if ok then running else stopped else fresh;
}

started_lem :
    (ok : Bool) (c : StartConfig)
    → (if c.auto_start
        then start_listener ok (record { auto_start = c.auto_start; state = fresh })
        else record { auto_start = c.auto_start; state = fresh })
      ≡ started ok c
unfolding start_listener is_started
started_lem ok c = ground arith

lookup-start_lives :
    (ok : Text → Bool) (k : Text) (cfgs : List (Text × StartConfig)) (cfg : StartConfig)
    → lookup k cfgs ≡ some cfg
    → lookup k (start_lives ok (new_lives cfgs)) ≡ some (started (ok k) cfg)
unfolding lookup start_lives new_lives
lookup-start_lives ok k [] cfg h = cc h
lookup-start_lives ok k ((j, c) ∷ cfgs) cfg h = elim (Bool-cases (text_eq j k)) [
  | inl same ↦
      let is : c ≡ cfg = ground (arith, h, same) in
      rw same (
        ap some (
          started_lem (ok j) c
          ∙ ap (λ n. started (ok n) c) ((text_eq_iff j k).0 same)
          ∙ ap (started (ok k)) is))
  | inr other ↦ rw other (lookup-start_lives ok k cfgs cfg (rw other at h))
]

stop_life_lem : (l : Life) → (stop_life l).state ≢ running
unfolding stop_life is_running
stop_life_lem l bad = elim (Bool-cases (is_running l.state)) [
  | inl e ↦ ground (arith, e, bad)
  | inr e ↦ ground (arith, e, bad)
]

stop_lives_lem :
    (n : Text) (lives : List (Text × Life)) (life : Life)
    → lookup n (stop_lives lives) ≡ some life
    → life.state ≢ running
unfolding stop_lives lookup
stop_lives_lem n [] life h bad = cc h
stop_lives_lem n ((j, l) ∷ ls) life h bad = elim (Bool-cases (text_eq j n)) [
  | inl same ↦
      let is : stop_life l ≡ life = ground (arith, h, same) in
      stop_life_lem l (ap (λ x. x.state) is ∙ bad)
  | inr other ↦ stop_lives_lem n ls life (rw other at h) bad
]

-- Whatever the listeners and their queues were before a reload: for each configured listener, after
-- any events were emitted since, if nothing was taken from its queue, that holds the last of these
-- events that it is subscribed to, as many as its buffer size allows, and none from before the reload;
-- the listener runs if it starts by itself and its child can be started; and of the listeners from
-- before none is left running.
pub reload-fresh :
    (ok : Text → Bool) (cfgs : List (Text × StartConfig)) (s : Service) (es : List Event) (k : Text)
    (cfg : StartConfig)
    → lookup k cfgs ≡ some cfg
    → ((l : EventListener) × (lookup k (emit_all es (reload ok cfgs s).0.manager).listeners
          ≡ some l)
        × (l.queue.events
            ≡ last_n
                (new_event_queue {A = Event} cfg.listener.buffer_size).cap
                (wanted (build_event_mask cfg.listener.events) es)))
      × (lookup k (reload ok cfgs s).0.lives
          ≡ some (record {
            auto_start = cfg.auto_start;
            state = if cfg.auto_start then if ok k then running else stopped else fresh;
          }))
      × ((n : Text) (life : Life)
          → lookup n (reload ok cfgs s).1.lives ≡ some life
          → life.state ≢ running)
unfolding reload start_service stop_service new_event_listener
reload-fresh ok cfgs s es k cfg h =
    let there =
      lookup-new_listeners k (listener_configs cfgs) cfg.listener
        (lookup-listener_configs k cfgs cfg h) in
    let manager : EventListenerManager = record s.manager {
      listeners = new_listeners (listener_configs cfgs);
    } in
    let (l, found, q) = emit_all-queue k es manager (new_event_listener cfg.listener) there in
    (
      (
        l,
        found,
        ap (λ x. x.events) q
            ∙ (push_all-last_n cfg.listener.buffer_size
                (wanted (build_event_mask cfg.listener.events) es)).1,
      ),
      lookup-start_lives ok k cfgs cfg h,
      λ n life is. stop_lives_lem n s.lives life is,
    )
