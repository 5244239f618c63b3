-- ===== src/Listener/Wire/Frame.antt =====
-- internal/eventlistener/wire.go: what a listener that follows the protocol reads back, and which
-- subscriptions cover which events.
use mathlib.Core.List.{append_assoc}
use gosupervisor.Events.{EventType, Event, signal}
use gosupervisor.Listener.Wire.{
  supervisord_event_derives, event_wire_name, build_event_mask, wants_event, typ_eq, event_body,
  event_header, encode_event,
}
use gosupervisor.Prelude.{
  leb, if◌then◌else◌, Bool-cases, Option-cases, length, length-append, take, drop,
  take-length-append, drop-length-append, Text, codes, text_eq, lookup, decimal, max_int, atoi,
  trim_space, atoi-decimal, read_line, IsFree, IsFree-append, decimal-IsFree, read_line-append, has,
  after_last, has-IsFree, after_last-append, ℕ, ◌≤◌, ◌≡◌, refl, ap, ◌∙◌, ◌≢◌, ◌↔◌, ◌⊎◌, inl, inr,
  true, false, ◌||◌, Option, none, some, List, [], ◌∷◌, ◌++◌, arith, pos,
}

-- Some of the names is one, blanks aside, whose event types include `typ`.
abbrev pub Subscribes : EventType → List Text → Type 0
Subscribes typ [] = ⊥
Subscribes typ (name ∷ names) =
    ((types : List EventType) × (lookup (trim_space name) supervisord_event_derives ≡ some types)
      × (wants_event types typ ≡ true))
    ⊎ Subscribes typ names

wants_event-append :
    (xs ys : List EventType) (typ : EventType)
    → wants_event (xs ++ ys) typ ≡ (wants_event xs typ || wants_event ys typ)
unfolding wants_event
wants_event-append [] ys typ = refl
wants_event-append (x ∷ xs) ys typ = ground (arith, wants_event-append xs ys typ)

module _ (name : Text) (names : List Text) where
  mask_unknown :
      lookup (trim_space name) supervisord_event_derives ≡ none
      → build_event_mask (name ∷ names) ≡ build_event_mask names
  unfolding build_event_mask
  mask_unknown e = rw (e, build_event_mask)

  mask_known :
      (types : List EventType)
      → lookup (trim_space name) supervisord_event_derives ≡ some types
      → build_event_mask (name ∷ names) ≡ types ++ build_event_mask names
  unfolding build_event_mask
  mask_known types e = rw (e, build_event_mask)

-- A listener is sent an event type exactly if one of the event names it is configured with covers
-- that type; unknown names cover none.
pub wants_event_iff :
    (names : List Text) (typ : EventType)
    → (wants_event (build_event_mask names) typ ≡ true) ↔ Subscribes typ names
wants_event_iff [] typ = (unfold wants_event build_event_mask in λ e. cc, λ f. absurd f)
wants_event_iff (name ∷ names) typ =
    let ih = wants_event_iff names typ in
    elim (Option-cases (lookup (trim_space name) supervisord_event_derives)) [
      | inl e ↦ (
        λ w. inr (ih.0 (rw (mask_unknown name names e) at w)),
        elim [ inl (types, e', w) ↦ cc | inr later ↦ rw (mask_unknown name names e) (ih.1 later) ],
      )
      | inr (types, e) ↦
          let both : wants_event (build_event_mask (name ∷ names)) typ
              ≡ (wants_event types typ || wants_event (build_event_mask names) typ) =
            ap (λ mask. wants_event mask typ) (mask_known name names types e)
            ∙ wants_event-append types (build_event_mask names) typ in
          (
            λ w. elim (Bool-cases (wants_event types typ)) [
              | inl here ↦ inl (types, e, here)
              | inr absent ↦ inr (ih.0 (ground (arith, both)))
            ],
            elim [
              | inl (types', e', w) ↦ ground (arith, both)
              | inr later ↦ ground (arith, both, ih.1 later)
            ],
          )
    ]

wire_name_covers :
    (typ : EventType)
    → (wants_event (build_event_mask (event_wire_name typ ∷ [])) typ ≡ true) ↔ (typ ≢ signal)
unfolding wants_event build_event_mask event_wire_name lookup typ_eq trim_space text_eq
wire_name_covers EventType.start = (λ _ e. cc, λ _. refl)
wire_name_covers EventType.stop = (λ _ e. cc, λ _. refl)
wire_name_covers EventType.exit = (λ _ e. cc, λ _. refl)
wire_name_covers EventType.fatal = (λ _ e. cc, λ _. refl)
wire_name_covers EventType.health_fail = (λ _ e. cc, λ _. refl)
wire_name_covers EventType.health_restore = (λ _ e. cc, λ _. refl)
wire_name_covers EventType.signal = (λ e. cc, λ h. absurd (h refl))

-- A listener is sent an event type exactly if one of the event names it is configured with covers
-- that type; unknown names cover none. The name under which a type is sent covers it for all types
-- but the sending of signals, and for that it does not.
pub wants_event_names :
    (names : List Text) (typ : EventType)
    → ((wants_event (build_event_mask names) typ ≡ true) ↔ Subscribes typ names)
      × ((wants_event (build_event_mask (event_wire_name typ ∷ [])) typ ≡ true) ↔ (typ ≢ signal))
wants_event_names names typ = (wants_event_iff names typ, wire_name_covers typ)

-- A listener reads a line, takes the number behind its last colon, and reads as many bytes.
pub read_frame : Text → Option (Text × Text)
read_frame s = elim (read_line s) [
  | none ↦ none
  | some (header, more) ↦ elim (atoi (after_last b':' header)) [
    | some (pos n) ↦ if leb n (length more) then some (take n more, drop n more) else none
    | _ ↦ none
  ]
]

literal : (s t : Text) → has 10 s ≡ false → IsFree 10 t → IsFree 10 (s ++ t)
literal s t h k = IsFree-append 10 s t (has-IsFree 10 s h) k

number : (n : ℕ) (t : Text) → IsFree 10 t → IsFree 10 (decimal n ++ t)
number n t k = IsFree-append 10 (decimal n) t (decimal-IsFree 10 n refl) k

wire_name-IsFree : (typ : EventType) → has 10 (event_wire_name typ) ≡ false
unfolding event_wire_name has
wire_name-IsFree EventType.start = refl
wire_name-IsFree _ = refl

header_IsFree :
    (e : Event) (server_id : Text) (serial pool_serial : ℕ) (pool : Text)
    → IsFree 10 server_id
    → IsFree 10 pool
    → IsFree 10 (event_header e server_id serial pool_serial pool)
unfolding event_header has
header_IsFree e server_id serial pool_serial pool h k = literal (codes "ver:3.0 server:") _ refl (
    IsFree-append 10 server_id _ h (
      literal (codes " serial:") _ refl (
        number serial _ (
          literal (codes " pool:") _ refl (
            IsFree-append 10 pool _ k (
              literal (codes " poolserial:") _ refl (
                number pool_serial _ (
                  literal (codes " eventname:") _ refl (
                    literal (event_wire_name e.typ) _ (wire_name-IsFree e.typ) (
                      literal (codes " len:") _ refl
                        (decimal-IsFree 10 (length (event_body e)) refl)))))))))))

-- The header up to its last colon.
header_front : Event → Text → (serial pool_serial : ℕ) → Text → Text
header_front e server_id serial pool_serial pool =
    codes "ver:3.0 server:"
    ++ (server_id
        ++ (codes " serial:"
            ++ (decimal serial
                ++ (codes " pool:"
                    ++ (pool
                        ++ (codes " poolserial:"
                            ++ (decimal pool_serial
                                ++ (codes " eventname:"
                                    ++ (event_wire_name e.typ ++ codes " len")))))))))

header-front :
    (e : Event) (server_id : Text) (serial pool_serial : ℕ) (pool : Text)
    → event_header e server_id serial pool_serial pool
      ≡ header_front e server_id serial pool_serial pool ++ b':' ∷ decimal (length (event_body e))
unfolding event_header header_front
header-front e server_id serial pool_serial pool = simp append_assoc

-- A listener that reads an encoded event finds its body, of the announced length, and after it
-- whatever was sent next; the server's and the pool's names are to hold no newline.
pub read_frame-encode_event :
    (e : Event) (server_id : Text) (serial pool_serial : ℕ) (pool more : Text)
    → IsFree 10 server_id
    → IsFree 10 pool
    → length (event_body e) ≤ max_int
    → read_frame (encode_event e server_id serial pool_serial pool ++ more)
      ≡ some (event_body e, more)
unfolding read_frame encode_event
read_frame-encode_event e server_id serial pool_serial pool more h k size =
    let header = event_header e server_id serial pool_serial pool in
    let n = length (event_body e) in
    let line : read_line ((header ++ 10 ∷ event_body e) ++ more)
        ≡ some (header, event_body e ++ more) =
      rw (append_assoc header (10 ∷ event_body e) more) (
        read_line-append header (event_body e ++ more)
          (header_IsFree e server_id serial pool_serial pool h k)) in
    let field : atoi (after_last b':' header) ≡ some (pos n) =
      rw
        (
          header-front e server_id serial pool_serial pool,
          after_last-append b':' (header_front e server_id serial pool_serial pool) (decimal n)
              (decimal-IsFree b':' n refl),
        )
        (atoi-decimal n size) in
    let fits : leb n (length (event_body e ++ more)) ≡ true =
      ground (arith, length-append (event_body e) more) in
    rw (
      line,
      read_frame,
      field,
      fits,
      take-length-append (event_body e) more,
      drop-length-append (event_body e) more,
    )
