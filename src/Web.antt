-- ===== src/Web.antt =====
-- internal/web/web.go: the requests of the web server that change processes, and what guards them.
-- What `url.Parse`, `net.SplitHostPort` and the decoding of a body give, the requests that only read,
-- and what each call of `Start`, `Stop` or `Signal` meets outside are given. Paths are clean, so that
-- the mux of package net/http does not redirect.
pub mod Routes
pub mod Guards
pub mod Access
pub mod Actions
use gosupervisor.Prelude.{
  ℕ, zero, suc, Bool, true, false, ◌&&◌, ◌||◌, not, List, [], ◌∷◌, ◌++◌, Option, none, some,
  if◌then◌else◌, ◌==◌, Text, codes, text_eq, contains, has_prefix, insert, drop, length,
}
use gosupervisor.Limiter.{RateLimiter, allow}
use gosupervisor.Process.{Process, Effect, Error, parse_signal}
use gosupervisor.Process.Start.{start}
use gosupervisor.Process.Stop.{stop}
use gosupervisor.Process.Restart.{restart}
use gosupervisor.Process.Signal.{signal}
use gosupervisor.Manager.{ProcessManager, get_process}
use gosupervisor.Manager.Batch.{Env}
use gosupervisor.Manager.Group.{GroupResult, start_group, stop_group, restart_group}

-- What the handlers read of `http.Request`; a header that is absent is empty.
pub record Request : Type 0 where
  pub method : Text
  pub path : Text
  pub host : Text
  pub origin : Text
  pub referer : Text
  pub basic_auth : Option (Text × Text)
  pub remote_addr : Text
  -- `r.FormValue("name")`
  pub form_name : Text
  -- The field of the body of a signal request, if it decodes.
  pub body_signal : Option Text

pub record WebServer : Type 0 where
  pub auth_user : Text
  pub auth_pass : Text
  pub api_auth : Bool
  pub cors_origin : Text
  pub rate_limiter : Option RateLimiter

pub record World : Type 0 where
  pub env : Env
  pub sent : Text → Bool
  pub sort : List Text → List Text
  pub now : ℕ
  -- The host of `url.Parse`; none is an error.
  pub url_host : Text → Option Text
  pub client_ip : Text → Text
  -- The status of a request that only reads.
  pub page : Request → ProcessManager → ℕ

pub record Response : Type 0 where
  pub status : ℕ
  pub processes : List (Text × Process)
  pub told : List (Text × List Effect)

abbrev pub Handler : Type 0
Handler = Request → ProcessManager → Response

-- A response that changes nothing.
unfoldable pub reply : ℕ → ProcessManager → Response
reply status pm = record { status = status; processes = pm.processes; told = [] }

unfoldable pub is_post : Request → Bool
unfolding text_eq
is_post r = text_eq r.method (codes "POST")

unfoldable pub is_get : Request → Bool
unfolding text_eq
is_get r = text_eq r.method (codes "GET")

unfoldable pub validate_process_name : Text → Bool
unfolding text_eq contains
validate_process_name name =
    not (text_eq name [])
    && (not (contains name (codes "/"))
        && (not (contains name (codes "..")) && not (contains name (codes "\\"))))

-- `Origin`, or else `Referer`.
unfoldable pub origin_of : Request → Text
unfolding text_eq
origin_of r = if text_eq r.origin [] then r.referer else r.origin

unfoldable pub is_same_origin : World → Request → Bool
unfolding origin_of text_eq
is_same_origin world r =
    if text_eq (origin_of r) []
    then false
    else if text_eq r.host []
    then false
    else elim (world.url_host (origin_of r)) [ none ↦ false | some host ↦ text_eq host r.host ]

-- What a call leaves, with the status of its success or its failure.
unfoldable pub after_call :
    (ok failed : ℕ)
    → (name : Text) → ProcessManager
    → Process × List Effect × Option Error
    → Response
unfolding insert
after_call ok failed name pm (q, told, e) = record {
  status = elim e [ none ↦ ok | some _ ↦ failed ];
  processes = insert name q pm.processes;
  told = (name, told) ∷ [];
}

-- `p.Signal(sig)`, which changes no process.
unfoldable pub signal_call : World → (sig : ℕ) → (name : Text) → ProcessManager → Process → Response
unfolding signal
signal_call world sig name pm p =
    let (told, e) = signal sig (world.sent name) p in
    record {
      status = elim e [ none ↦ 200 | some _ ↦ 500 ];
      processes = pm.processes;
      told = (name, told) ∷ [];
    }

unfoldable pub start_call : World → Text → Process → Process × List Effect × Option Error
unfolding start
start_call world name p = start (world.env.launch name) p

-- `Stop` returns no error.
unfoldable pub stop_call : World → Text → Process → Process × List Effect × Option Error
unfolding stop
stop_call world name p = let (q, told) = stop (world.env.halt name) p in (q, told, none)

unfoldable pub restart_call : World → Text → Process → Process × List Effect × Option Error
unfolding restart
restart_call world name p = restart (world.env.halt name) (world.env.launch name) p

-- The forms of the index page, which differ in the call.
unfoldable pub handle_form :
    World → (Text → Process → Process × List Effect × Option Error) → Handler
unfolding is_post is_same_origin validate_process_name reply after_call get_process
handle_form world call r pm =
    if not (is_post r)
    then reply 405 pm
    else if not (is_same_origin world r)
    then reply 403 pm
    else if not (validate_process_name r.form_name)
    then reply 400 pm
    else elim (get_process r.form_name pm) [
      | none ↦ reply 404 pm
      | some p ↦ after_call 302 500 r.form_name pm (call r.form_name p)
    ]

unfoldable pub handle_start : World → Handler
unfolding handle_form start_call
handle_start world = handle_form world (start_call world)

unfoldable pub handle_stop : World → Handler
unfolding handle_form stop_call
handle_stop world = handle_form world (stop_call world)

unfoldable pub handle_restart : World → Handler
unfolding handle_form restart_call
handle_restart world = handle_form world (restart_call world)

-- `strings.SplitN(path, "/", 2)`: what stands before the first slash and what behind it.
unfoldable pub split_path : Text → Text × Text
split_path [] = ([], [])
split_path (c ∷ s) =
    let (name, action) = split_path s in if c == b'/' then ([], s) else (c ∷ name, action)

unfoldable pub handle_process_signal : World → (name : Text) → Process → Handler
unfolding reply parse_signal signal_call
handle_process_signal world name p r pm = elim r.body_signal [
  | none ↦ reply 400 pm
  | some sig_name ↦ elim (parse_signal sig_name) [
    | none ↦ reply 400 pm
    | some sig ↦ signal_call world sig name pm p
  ]
]

abbrev pub sighup : ℕ
sighup = 1

-- The switch on the action and the method, in three parts.
unfoldable pub signal_action : World → (name action : Text) → Process → Handler
unfolding text_eq is_post signal_call handle_process_signal reply
signal_action world name action p r pm =
    if text_eq action (codes "reload") && is_post r
    then signal_call world sighup name pm p
    else if text_eq action (codes "signal") && is_post r
    then handle_process_signal world name p r pm
    else reply 405 pm

unfoldable pub read_action : World → (name action : Text) → Process → Handler
unfolding text_eq is_get reply signal_action
read_action world name action p r pm =
    if text_eq action (codes "logs") && is_get r
    then reply (world.page r pm) pm
    else if text_eq action (codes "logs/tail") && is_get r
    then reply (world.page r pm) pm
    else if text_eq action (codes "logs/stderr") && is_get r
    then reply (world.page r pm) pm
    else if text_eq action (codes "resources") && is_get r
    then reply (world.page r pm) pm
    else signal_action world name action p r pm

unfoldable pub process_action : World → (name action : Text) → Process → Handler
unfolding text_eq is_get is_post after_call start_call stop_call restart_call read_action reply
process_action world name action p r pm =
    if text_eq action [] && is_get r
    then reply 200 pm
    else if text_eq action (codes "start") && is_post r
    then after_call 200 500 name pm (start_call world name p)
    else if text_eq action (codes "stop") && is_post r
    then after_call 200 500 name pm (stop_call world name p)
    else if text_eq action (codes "restart") && is_post r
    then after_call 200 500 name pm (restart_call world name p)
    else read_action world name action p r pm

abbrev pub processes_path : Text
processes_path = codes "/api/v1/processes/"

abbrev pub groups_path : Text
groups_path = codes "/api/v1/groups/"

-- The handler of a process, once the path is cut.
unfoldable pub on_process : World → (name action : Text) → Handler
unfolding validate_process_name is_post is_same_origin get_process process_action reply
on_process world name action r pm =
    if not (validate_process_name name)
    then reply 400 pm
    else if is_post r && not (is_same_origin world r)
    then reply 403 pm
    else elim (get_process name pm) [
      | none ↦ reply 404 pm
      | some p ↦ process_action world name action p r pm
    ]

unfoldable pub handle_api_v1_process_action : World → Handler
unfolding split_path on_process
handle_api_v1_process_action world r pm =
    let (name, action) = split_path (drop (length processes_path) r.path) in
    on_process world name action r pm

unfoldable pub after_group : GroupResult → Response
after_group g = record { status = 200; processes = g.processes; told = g.told }

unfoldable pub handle_api_v1_group_action : World → Handler
unfolding split_path validate_process_name is_post is_same_origin text_eq after_group reply
    start_group stop_group restart_group
handle_api_v1_group_action world r pm =
    let (group, action) = split_path (drop (length groups_path) r.path) in
    if not (validate_process_name group)
    then reply 400 pm
    else if is_post r && not (is_same_origin world r)
    then reply 403 pm
    else if text_eq action (codes "start") && is_post r
    then after_group (start_group world.sort world.env group pm)
    else if text_eq action (codes "stop") && is_post r
    then after_group (stop_group world.sort world.env group pm)
    else if text_eq action (codes "restart") && is_post r
    then after_group (restart_group world.sort world.env group pm)
    else reply 405 pm
