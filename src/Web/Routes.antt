-- ===== src/Web/Routes.antt =====
-- internal/web/web.go: the routes of `NewWebServerFullTLS`, `authMiddleware`, `corsMiddleware` and the
-- handlers that `Start` puts around each other; internal/web/ratelimit.go: `Middleware`.
use gosupervisor.Prelude.{
  Bool, true, false, ◌&&◌, ◌||◌, not, [], Option, none, some, if◌then◌else◌, Text, codes, text_eq,
  has_prefix,
}
use gosupervisor.Limiter.{RateLimiter, allow}
use gosupervisor.Manager.{ProcessManager}
use gosupervisor.Web.{
  Request, WebServer, World, Response, Handler, reply, handle_start, handle_stop, handle_restart,
  processes_path, groups_path, handle_api_v1_process_action, handle_api_v1_group_action,
}

-- The routes that change nothing are pages.
unfoldable pub mux : World → Handler
unfolding text_eq has_prefix reply handle_start handle_stop handle_restart
    handle_api_v1_process_action handle_api_v1_group_action
mux world r pm =
    if has_prefix r.path processes_path
    then handle_api_v1_process_action world r pm
    else if has_prefix r.path groups_path
    then handle_api_v1_group_action world r pm
    else if text_eq r.path (codes "/start")
    then handle_start world r pm
    else if text_eq r.path (codes "/stop")
    then handle_stop world r pm
    else if text_eq r.path (codes "/restart")
    then handle_restart world r pm
    else reply (world.page r pm) pm

unfoldable pub has_auth : WebServer → Bool
unfolding text_eq
has_auth ws = not (text_eq ws.auth_user []) || not (text_eq ws.auth_pass [])

-- `r.BasicAuth()` and the comparison.
unfoldable pub is_user : WebServer → Option (Text × Text) → Bool
unfolding text_eq
is_user ws none = false
is_user ws (some (user, pass)) = text_eq user ws.auth_user && text_eq pass ws.auth_pass

unfoldable pub auth_middleware : WebServer → Handler → Handler
unfolding has_auth has_prefix is_user reply
auth_middleware ws next r pm =
    if not (has_auth ws)
    then next r pm
    else if not ws.api_auth && has_prefix r.path (codes "/api/v1/")
    then next r pm
    else if not (is_user ws r.basic_auth)
    then reply 401 pm
    else next r pm

unfoldable pub cors_middleware : Handler → Handler
unfolding has_prefix text_eq reply
cors_middleware next r pm =
    if not (has_prefix r.path (codes "/api/"))
    then next r pm
    else if text_eq r.origin []
    then next r pm
    else if text_eq r.method (codes "OPTIONS")
    then reply 204 pm
    else next r pm

-- The handler that `Start` makes, but for the limit.
unfoldable pub inner : World → WebServer → Handler
unfolding mux has_auth auth_middleware
inner world ws = if has_auth ws then auth_middleware ws (mux world) else mux world

unfoldable pub handler : World → WebServer → Handler
unfolding inner text_eq cors_middleware
handler world ws =
    if text_eq ws.cors_origin [] then inner world ws else cors_middleware (inner world ws)

-- What the limiter, if there is one, is left as, and whether it lets the request through.
unfoldable pub limit : World → Request → Option RateLimiter → Option RateLimiter × Bool
unfolding allow
limit world r none = (none, true)
limit world r (some rl) =
    let (rl', ok) = allow (world.client_ip r.remote_addr) world.now rl in (some rl', ok)

-- A request: what is left of the server, and the response.
unfoldable pub serve : World → WebServer → Request → ProcessManager → WebServer × Response
unfolding handler limit reply
serve world ws r pm =
    let (limiter, ok) = limit world r ws.rate_limiter in
    (record ws { rate_limiter = limiter }, if ok then handler world ws r pm else reply 429 pm)
