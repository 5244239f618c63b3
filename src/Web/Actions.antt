-- ===== src/Web/Actions.antt =====
-- internal/web/web.go: what a request to the API does to a process.
use gosupervisor.Prelude.{
  ◌≡◌, ◌⊎◌, refl, ap, ◌∙◌, true, false, List, [], ◌∷◌, ◌++◌, Option, none, some, arith, Text, codes,
  text_eq, contains, has_prefix, drop, length, insert,
}
use gosupervisor.Process.{Process, Effect, Error}
use gosupervisor.Process.Start.{start}
use gosupervisor.Process.Stop.{stop}
use gosupervisor.Process.Restart.{restart}
use gosupervisor.Manager.{ProcessManager, get_process}
use gosupervisor.Web.{
  Request, WebServer, World, is_post, is_same_origin, validate_process_name, after_call, start_call,
  stop_call, restart_call, split_path, on_process, process_action, processes_path,
  handle_api_v1_process_action,
}
use gosupervisor.Web.Routes.{
  mux, has_auth, is_user, auth_middleware, cors_middleware, inner, handler, limit, serve,
}

-- The calls that the API makes on a process.
pub data Call : Type 0 where
  start_process stop_process restart_process : Call

abbrev pub word : Call → Text
word start_process = codes "start"
word stop_process = codes "stop"
word restart_process = codes "restart"

-- What such a call is to do: `Start`, `Stop`, which returns no error, or `Restart`.
unfoldable pub called : World → Call → Text → Process → Process × List Effect × Option Error
called world start_process name p = start (world.env.launch name) p
called world stop_process name p =
    ((stop (world.env.halt name) p).0, (stop (world.env.halt name) p).1, none)
called world restart_process name p = restart (world.env.halt name) (world.env.launch name) p

split_path-slash :
    (name action : Text)
    → contains name (codes "/") ≡ false
    → split_path (name ++ b'/' ∷ action) ≡ (name, action)
unfolding split_path contains has_prefix
split_path-slash [] action h = refl
split_path-slash (c ∷ name) action h =
    ground (arith, h, split_path-slash name action (ground (arith, h)))

process_action-called :
    (world : World) (call : Call) (name : Text) (p : Process) (r : Request) (pm : ProcessManager)
    → is_post r ≡ true
    → process_action world name (word call) p r pm
      ≡ after_call 200 500 name pm (called world call name p)
unfolding process_action text_eq called start_call stop_call restart_call
process_action-called world start_process name p r pm post = rw (post, process_action) refl
process_action-called world stop_process name p r pm post = rw (post, process_action) refl
process_action-called world restart_process name p r pm post = rw (post, process_action) refl

on_process-called :
    (world : World) (call : Call) (name : Text) (p : Process) (r : Request) (pm : ProcessManager)
    → validate_process_name name ≡ true
    → is_post r ≡ true
    → is_same_origin world r ≡ true
    → get_process name pm ≡ some p
    → on_process world name (word call) r pm ≡ after_call 200 500 name pm (called world call name p)
unfolding on_process
on_process-called world call name p r pm valid post same found =
    rw (valid, post, same, found, on_process) (process_action-called world call name p r pm post)

mux-called :
    (world : World) (call : Call) (name : Text) (p : Process) (r : Request) (pm : ProcessManager)
    → r.path ≡ processes_path ++ (name ++ b'/' ∷ word call)
    → validate_process_name name ≡ true
    → is_post r ≡ true
    → is_same_origin world r ≡ true
    → get_process name pm ≡ some p
    → mux world r pm ≡ after_call 200 500 name pm (called world call name p)
unfolding mux handle_api_v1_process_action has_prefix
mux-called world call name p r pm path valid post same found =
    let here : has_prefix r.path processes_path ≡ true =
      ap (λ t. has_prefix t processes_path) path ∙ refl in
    let parts : split_path (drop (length processes_path) r.path) ≡ (name, word call) =
      ap (λ t. split_path (drop (length processes_path) t)) path
      ∙ split_path-slash name (word call) (unfold validate_process_name in ground (arith, valid)) in
    rw (here, mux)
      (ap (λ q. on_process world q.0 q.1 r pm) parts
        ∙ on_process-called world call name p r pm valid post same found)

inner-passes :
    (world : World) (ws : WebServer) (r : Request) (pm : ProcessManager)
    → (has_auth ws ≡ false) ⊎ (ws.api_auth ≡ false) ⊎ (is_user ws r.basic_auth ≡ true)
    → has_prefix r.path (codes "/api/v1/") ≡ true
    → inner world ws r pm ≡ mux world r pm
unfolding inner auth_middleware
inner-passes world ws r pm auth api = ground (arith, auth, api)

handler-passes :
    (world : World) (ws : WebServer) (r : Request) (pm : ProcessManager)
    → text_eq r.method (codes "OPTIONS") ≡ false
    → handler world ws r pm ≡ inner world ws r pm
unfolding handler cors_middleware
handler-passes world ws r pm other = ground (arith, other)

-- For a request that the rate limit lets through and that has the credentials, or needs none: a POST
-- from the same origin to the path of the API whose last word is `start`, `stop` or `restart` does
-- `Start`, `Stop` or `Restart` once on the process that the path names, tells what that tells, leaves
-- the others and answers 200, or 500 if the call fails.
pub serve-called :
    (world : World) (ws : WebServer) (call : Call) (name : Text) (p : Process) (r : Request)
    (pm : ProcessManager)
    → (limit world r ws.rate_limiter).1 ≡ true
    → (has_auth ws ≡ false) ⊎ (ws.api_auth ≡ false) ⊎ (is_user ws r.basic_auth ≡ true)
    → r.method ≡ codes "POST"
    → is_same_origin world r ≡ true
    → r.path ≡ processes_path ++ (name ++ b'/' ∷ word call)
    → validate_process_name name ≡ true
    → get_process name pm ≡ some p
    → (serve world ws r pm).1 ≡ record {
      status = elim (called world call name p).2 [ none ↦ 200 | some e ↦ 500 ];
      processes = insert name (called world call name p).0 pm.processes;
      told = (name, (called world call name p).1) ∷ [];
    }
unfolding serve after_call has_prefix text_eq
serve-called world ws call name p r pm ok auth method same path valid found =
    let post : is_post r ≡ true =
      unfold is_post in ap (λ m. text_eq m (codes "POST")) method ∙ refl in
    let other : text_eq r.method (codes "OPTIONS") ≡ false =
      ap (λ m. text_eq m (codes "OPTIONS")) method ∙ refl in
    let api : has_prefix r.path (codes "/api/v1/") ≡ true =
      ap (λ t. has_prefix t (codes "/api/v1/")) path ∙ refl in
    rw (ok) (
      handler-passes world ws r pm other
      ∙ inner-passes world ws r pm auth api
      ∙ mux-called world call name p r pm path valid post same found)
