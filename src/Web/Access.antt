-- ===== src/Web/Access.antt =====
-- internal/web/web.go: the handlers around the mux, and what a request must have to change anything.
use gosupervisor.Prelude.{
  ℕ, ◌≡◌, ◌⊎◌, inl, inr, refl, true, false, [], Option, none, some, arith, Text, codes, text_eq,
  text_eq_iff, has_prefix, Bool-cases,
}
use gosupervisor.Manager.{ProcessManager}
use gosupervisor.Web.{Request, WebServer, World, Response, Handler, reply, is_post}
use gosupervisor.Web.Routes.{
  mux, has_auth, is_user, auth_middleware, cors_middleware, inner, handler, limit, serve,
}
use gosupervisor.Web.Guards.{
  IsUnchanged, IsSameOrigin, reply-IsUnchanged, mux_lem, is_same_origin_lem,
}

-- Either no credentials are set, or the request has them, or it is for the API and that needs none.
abbrev pub IsAuthorised : WebServer → Request → Type 0
IsAuthorised ws r =
    ((ws.auth_user ≡ []) × (ws.auth_pass ≡ []))
    ⊎ (r.basic_auth ≡ some (ws.auth_user, ws.auth_pass))
    ⊎ ((ws.api_auth ≡ false) × (has_prefix r.path (codes "/api/v1/") ≡ true))

is_user_lem :
    (ws : WebServer) (given : Option (Text × Text))
    → is_user ws given ≡ true
    → given ≡ some (ws.auth_user, ws.auth_pass)
unfolding is_user
is_user_lem ws none h = cc h
is_user_lem ws (some (user, pass)) h =
    let same_user = (text_eq_iff user ws.auth_user).0 (ground (arith, h)) in
    let same_pass = (text_eq_iff pass ws.auth_pass).0 (ground (arith, h)) in cc

-- With credentials the middleware lets through only what is authorised.
auth_middleware_lem :
    (ws : WebServer) (next : Handler) (r : Request) (pm : ProcessManager)
    → (auth_middleware ws next r pm ≡ reply 401 pm)
      ⊎ ((auth_middleware ws next r pm ≡ next r pm) × IsAuthorised ws r)
unfolding auth_middleware has_auth
auth_middleware_lem ws next r pm =
    ground
      (arith, is_user_lem ws r.basic_auth, text_eq_iff ws.auth_user [], text_eq_iff ws.auth_pass [])

Checked : World → WebServer → Request → ProcessManager → Response → Type 0
Checked world ws r pm out =
    IsUnchanged pm out ⊎ ((r.method ≡ codes "POST") × IsSameOrigin world r × IsAuthorised ws r)

mux-Checked :
    (world : World) (ws : WebServer) (r : Request) (pm : ProcessManager)
    → IsAuthorised ws r
    → Checked world ws r pm (mux world r pm)
unfolding Checked is_post
mux-Checked world ws r pm auth = elim (mux_lem world r pm) [
  | inl same ↦ inl same
  | inr (post, same) ↦
      inr ((text_eq_iff r.method (codes "POST")).0 post, is_same_origin_lem world r same, auth)
]

unchanged :
    (world : World) (ws : WebServer) (r : Request) (pm : ProcessManager) (status : ℕ)
    → Checked world ws r pm (reply status pm)
unfolding Checked
unchanged world ws r pm status = inl (reply-IsUnchanged status pm)

inner-Checked :
    (world : World) (ws : WebServer) (r : Request) (pm : ProcessManager)
    → Checked world ws r pm (inner world ws r pm)
unfolding inner
inner-Checked world ws r pm = elim (Bool-cases (has_auth ws)) [
  | inl e ↦
      rw (e, inner)
        (elim (auth_middleware_lem ws (mux world) r pm) [
          | inl out ↦ rw out (unchanged world ws r pm 401)
          | inr (out, auth) ↦ rw out (mux-Checked world ws r pm auth)
        ])
  | inr e ↦
      rw (e, inner)
        (mux-Checked world ws r pm (
          inl (
            unfold has_auth in
            ground (arith, e, text_eq_iff ws.auth_user [], text_eq_iff ws.auth_pass []))))
]

cors_middleware_lem :
    (next : Handler) (r : Request) (pm : ProcessManager)
    → (cors_middleware next r pm ≡ reply 204 pm) ⊎ (cors_middleware next r pm ≡ next r pm)
unfolding cors_middleware
cors_middleware_lem next r pm = ground arith

handler-Checked :
    (world : World) (ws : WebServer) (r : Request) (pm : ProcessManager)
    → Checked world ws r pm (handler world ws r pm)
unfolding handler
handler-Checked world ws r pm = elim (Bool-cases (text_eq ws.cors_origin [])) [
  | inl e ↦ rw (e, handler) (inner-Checked world ws r pm)
  | inr e ↦
      rw (e, handler)
        (elim (cors_middleware_lem (inner world ws) r pm) [
          | inl out ↦ rw out (unchanged world ws r pm 204)
          | inr out ↦ rw out (inner-Checked world ws r pm)
        ])
]

-- For any request: either no process changes and nothing is told, or the request is a POST, its origin
-- or referer is of the host that it asks, it has the credentials where they are needed, and the rate
-- limit, if there is one, lets it through.
pub serve-guarded :
    (world : World) (ws : WebServer) (r : Request) (pm : ProcessManager)
    → IsUnchanged pm (serve world ws r pm).1
      ⊎ ((r.method ≡ codes "POST")
          × IsSameOrigin world r
          × IsAuthorised ws r
          × ((limit world r ws.rate_limiter).1 ≡ true))
unfolding serve Checked
serve-guarded world ws r pm = elim (Bool-cases ((limit world r ws.rate_limiter).1)) [
  | inl ok ↦ rw (ok) (elim (handler-Checked world ws r pm) [
    | inl same ↦ inl same
    | inr (post, same, auth) ↦ inr (post, same, auth, refl)
  ])
  | inr over ↦ rw (over) (inl (reply-IsUnchanged 429 pm))
]
