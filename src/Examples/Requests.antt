-- ===== src/Examples/Requests.antt =====
-- A request to the web server.
use gosupervisor.Prelude.{
  ◌≡◌, ◌⊎◌, inr, refl, true, [], ◌∷◌, none, some, codes, insert, lookup, text_eq, has_prefix,
  contains,
}
use gosupervisor.Manager.{ProcessManager, get_process}
use gosupervisor.Manager.Sort.{sort_by_priority}
use gosupervisor.Web.{Request, WebServer, World, is_same_origin, validate_process_name}
use gosupervisor.Web.Routes.{is_user, limit, serve}
use gosupervisor.Web.Guards.{IsUnchanged, IsSameOrigin}
use gosupervisor.Web.Access.{IsAuthorised, serve-guarded}
use gosupervisor.Web.Actions.{called, stop_process, serve-called}
use gosupervisor.Examples.{running_process, good_launch, quick_halt}

abbrev web_world : World
web_world = record {
  env = record { launch = λ name. good_launch; halt = λ name. quick_halt };
  sent = λ name. true;
  sort = sort_by_priority [];
  now = 100;
  url_host = λ url. some (codes "here:9001");
  client_ip = λ addr. addr;
  page = λ r pm. 200;
}

abbrev server : WebServer
server = record {
  auth_user = codes "me";
  auth_pass = codes "key";
  api_auth = true;
  cors_origin = [];
  rate_limiter = none;
}

abbrev stop_cat : Request
stop_cat = record {
  method = codes "POST";
  path = codes "/api/v1/processes/cat/stop";
  host = codes "here:9001";
  origin = codes "http://here:9001";
  referer = [];
  basic_auth = some (codes "me", codes "key");
  remote_addr = codes "10.0.0.1";
  form_name = [];
  body_signal = none;
}

abbrev web_manager : ProcessManager
web_manager = record { processes = (codes "cat", running_process) ∷ [] }

serve-guarded_example :
    IsUnchanged web_manager (serve web_world server stop_cat web_manager).1
    ⊎ ((stop_cat.method ≡ codes "POST")
        × IsSameOrigin web_world stop_cat
        × IsAuthorised server stop_cat
        × ((limit web_world stop_cat server.rate_limiter).1 ≡ true))
serve-guarded_example = serve-guarded web_world server stop_cat web_manager

serve-called_example : (serve web_world server stop_cat web_manager).1 ≡ record {
  status = 200;
  processes =
      insert
        (codes "cat")
        (called web_world stop_process (codes "cat") running_process).0
        web_manager.processes;
  told = (codes "cat", (called web_world stop_process (codes "cat") running_process).1) ∷ [];
}
unfolding lookup text_eq has_prefix contains is_user is_same_origin validate_process_name limit
    get_process called
serve-called_example =
    serve-called web_world server stop_process (codes "cat") running_process stop_cat web_manager
      refl (inr (inr refl)) refl refl refl refl refl
