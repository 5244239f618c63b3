-- ===== src/Web/Guards.antt =====
-- internal/web/web.go: what a request must have to change anything.
use gosupervisor.Prelude.{
  ℕ, ◌≡◌, ◌≢◌, ◌⊎◌, inl, inr, refl, ap, ◌∙◌, Bool, true, false, ◌&&◌, List, [], Option, none, some,
  arith, if◌then◌else◌, Text, codes, text_eq, text_eq_iff, has_prefix, drop, length, Bool-cases,
  Option-cases,
}
use gosupervisor.Process.{Process, Effect, Error}
use gosupervisor.Manager.{ProcessManager, get_process}
use gosupervisor.Web.{
  read_action, signal_action, Request, World, Response, reply, is_post, origin_of, is_same_origin,
  start_call, stop_call, restart_call, handle_form, handle_start, handle_stop, handle_restart,
  split_path, on_process, process_action, processes_path, groups_path, handle_api_v1_process_action,
  handle_api_v1_group_action,
}
use gosupervisor.Web.Routes.{mux}

-- No process changes and nothing is told.
abbrev pub IsUnchanged : ProcessManager → Response → Type 0
IsUnchanged pm out = (out.processes ≡ pm.processes) × (out.told ≡ [])

-- The host of the header `Origin`, or of `Referer` where that is absent, is the one asked.
abbrev pub IsSameOrigin : World → Request → Type 0
IsSameOrigin world r =
    (r.host ≢ [])
    × (((r.origin ≢ []) × (world.url_host r.origin ≡ some r.host))
        ⊎ ((r.origin ≡ []) × (r.referer ≢ []) × (world.url_host r.referer ≡ some r.host)))

abbrev pub Guarded : World → Request → ProcessManager → Response → Type 0
Guarded world r pm out = IsUnchanged pm out ⊎ ((is_post r ≡ true) × (is_same_origin world r ≡ true))

pub reply-IsUnchanged : (status : ℕ) (pm : ProcessManager) → IsUnchanged pm (reply status pm)
unfolding reply
reply-IsUnchanged status pm = (refl, refl)

handle_form_lem :
    (world : World) (call : Text → Process → Process × List Effect × Option Error) (r : Request)
    (pm : ProcessManager)
    → Guarded world r pm (handle_form world call r pm)
unfolding handle_form reply
handle_form_lem world call r pm = elim (Bool-cases (is_post r && is_same_origin world r)) [
  | inl e ↦ inr (ground (arith, e))
  | inr e ↦ inl (ground (arith, e))
]

-- Without a POST the switch changes nothing.
module _ (world : World) (name action : Text) (p : Process) (r : Request) (pm : ProcessManager)
    (e : is_post r ≡ false) where
  signal_action_lem : IsUnchanged pm (signal_action world name action p r pm)
  unfolding signal_action reply
  signal_action_lem = ground (arith, e)

  read_action_lem : IsUnchanged pm (read_action world name action p r pm)
  unfolding read_action reply
  read_action_lem = ground (arith, signal_action_lem)

  process_action_lem : IsUnchanged pm (process_action world name action p r pm)
  unfolding process_action reply
  process_action_lem = ground (arith, e, read_action_lem)

handle_api_v1_process_action_lem :
    (world : World) (r : Request) (pm : ProcessManager)
    → Guarded world r pm (handle_api_v1_process_action world r pm)
unfolding handle_api_v1_process_action on_process reply
handle_api_v1_process_action_lem world r pm =
    let parts = split_path (drop (length processes_path) r.path) in
    elim (Bool-cases (is_post r)) [
      | inl post ↦ elim (Bool-cases (is_same_origin world r)) [
        | inl same ↦ inr (post, same)
        | inr other ↦ inl (ground (arith, post, other))
      ]
      | inr post ↦ elim (Option-cases (get_process parts.0 pm)) [
        | inl e ↦ inl (ground (arith, post, e))
        | inr (p, e) ↦
            inl (ground (arith, post, e, process_action_lem world parts.0 parts.1 p r pm post))
      ]
    ]

handle_api_v1_group_action_lem :
    (world : World) (r : Request) (pm : ProcessManager)
    → Guarded world r pm (handle_api_v1_group_action world r pm)
unfolding handle_api_v1_group_action reply
handle_api_v1_group_action_lem world r pm =
    elim (Bool-cases (is_post r && is_same_origin world r)) [
      | inl e ↦ inr (ground (arith, e))
      | inr e ↦ inl (ground (arith, e))
    ]

either :
    (world : World) (r : Request) (pm : ProcessManager) (test : Bool) (a b : Response)
    → Guarded world r pm a
    → Guarded world r pm b
    → Guarded world r pm (if test then a else b)
either world r pm true a b h k = h
either world r pm false a b h k = k

pub mux_lem :
    (world : World) (r : Request) (pm : ProcessManager) → Guarded world r pm (mux world r pm)
unfolding mux handle_start handle_stop handle_restart
mux_lem world r pm =
    let page : Response = reply (world.page r pm) pm in
    let restarts : Response = handle_restart world r pm in
    let stops : Response = handle_stop world r pm in
    let starts : Response = handle_start world r pm in
    let at_restart = text_eq r.path (codes "/restart") in
    let at_stop = text_eq r.path (codes "/stop") in
    let at_start = text_eq r.path (codes "/start") in
    let r3 : Response = if at_restart then restarts else page in
    let r2 : Response = if at_stop then stops else r3 in
    let r1 : Response = if at_start then starts else r2 in
    let groups = handle_api_v1_group_action world r pm in
    let r0 : Response = if has_prefix r.path groups_path then groups else r1 in
    let h3 =
      either world r pm at_restart restarts page (handle_form_lem world (restart_call world) r pm)
        (inl (reply-IsUnchanged (world.page r pm) pm)) in
    let h2 = either world r pm at_stop stops r3 (handle_form_lem world (stop_call world) r pm) h3 in
    let h1 =
      either world r pm at_start starts r2 (handle_form_lem world (start_call world) r pm) h2 in
    either world r pm (has_prefix r.path processes_path) (handle_api_v1_process_action world r pm)
      r0 (handle_api_v1_process_action_lem world r pm)
      (either world r pm (has_prefix r.path groups_path) groups r1
        (handle_api_v1_group_action_lem world r pm) h1)

host_lem :
    (world : World) (origin host : Text)
    → elim (world.url_host origin) as (λ _. Bool) [ none ↦ false | some h ↦ text_eq h host ] ≡ true
    → world.url_host origin ≡ some host
host_lem world origin host h = elim (Option-cases (world.url_host origin)) [
  | inl e ↦ ground (arith, e, h)
  | inr (found, e) ↦ e ∙ ap some ((text_eq_iff found host).0 (ground (arith, e, h)))
]

pub is_same_origin_lem :
    (world : World) (r : Request) → is_same_origin world r ≡ true → IsSameOrigin world r
unfolding is_same_origin origin_of
is_same_origin_lem world r h = elim (Bool-cases (text_eq r.origin [])) [
  | inl e ↦ (
    ground (arith, h, e, text_eq_iff r.host []),
    inr (
      (text_eq_iff r.origin []).0 e,
      ground (arith, h, e, text_eq_iff r.referer []),
      host_lem world r.referer r.host (ground (arith, h, e)),
    ),
  )
  | inr e ↦ (
    ground (arith, h, e, text_eq_iff r.host []),
    inl (
      ground (arith, e, text_eq_iff r.origin []),
      host_lem world r.origin r.host (ground (arith, h, e)),
    ),
  )
]
