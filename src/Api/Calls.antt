-- ===== src/Api/Calls.antt =====
-- The handlers of cmd/api/main.go that use the database, the cache, the search index and the audit log.
-- The world holds what they change. What a request is bound to (the JSON of its body, its path) comes as
-- an argument.
use terraform_provider_viett.Prelude.{
  ℕ, String, Bool, true, false, Option, none, some, List, ◌==◌, if◌then◌else◌,
}
use terraform_provider_viett.Go.{Failure, Result, ok, err, Act, Proc, ℤ, pos}
use terraform_provider_viett.Server.{Server, Store}
use terraform_provider_viett.Database.{Event}
use terraform_provider_viett.Audit.{Entry}
use terraform_provider_viett.Auth.{Jwt, Context, issue, role_operator, subject, role}
use terraform_provider_viett.Api.Call.{
  Response, error_body, server_body, servers_body, events_body, token_body, status_body,
  degraded_body, respond,
}

-- The calls that the handlers make: the cached store, the audit log, the search index, the database's
-- ping, and new UUIDs; the text of an error.
pub record Backend (W : Type 0) : Type 0 where
  pub store : Store W
  pub audit_record : Entry → Act W (Unit {0})
  pub audit_list : ℤ → Act W (List Event)
  pub index : String → String → Server → Proc W
  pub ping : Proc W
  pub new_uuid : W → String × W
  pub message : Failure → String

-- GET /healthz
unfoldable pub healthz : {W : Type 0} → Backend W → W → Response × W
healthz b w =
    let (e, w') = b.ping w in
    elim e [
      | some _ ↦ (respond 503 (degraded_body), w')
      | none ↦ (respond 200 (status_body "ok"), w')
    ]

-- the body of POST /auth/token
pub record TokenRequest : Type 0 where
  pub subject : String
  pub role : String

unfoldable pub or_default : String → String → String
or_default given default = if given == "" then default else given

unfoldable pub token_response : (Failure → String) → String → Result String → Response
token_response message role (err e) = respond 400 (error_body (message e))
token_response message role (ok token) = respond 200 (token_body token role)

-- POST /auth/token; `none` is a body that cannot be bound
unfoldable pub post_token :
    Jwt → (Failure → String) → String → ℕ → ℕ → Option TokenRequest → Response
unfolding or_default token_response issue
post_token jwt message secret now now' none = respond 400 (error_body "invalid request")
post_token jwt message secret now now' (some request) =
    let sub = or_default request.subject "operator" in
    let r = or_default request.role role_operator in
    token_response message r (issue jwt secret sub r now now')

module _ {W : Type 0} (b : Backend W) where
  -- recordAudit: an error is only logged
  unfoldable pub record_audit : Context → String → String → Bool → W → W
  record_audit c action resource_id success w =
      (b.audit_record
        (record {
          actor = subject c;
          role = role c;
          action = action;
          resource = "server";
          resource_id = resource_id;
          success = success;
        })
        w).1

  -- indexBestEffort: an error is only logged
  unfoldable pub index_best_effort : Server → W → W
  index_best_effort out w = (b.index "servers" out.id out w).1

  unfoldable pub events_response : Result (List Event) × W → Response × W
  events_response (err e, w) = (respond 500 (error_body (b.message e)), w)
  events_response (ok events, w) = (respond 200 (events_body events), w)

  -- GET /v1/audit
  unfoldable pub get_audit : W → Response × W
  unfolding events_response
  get_audit w = events_response (b.audit_list (pos 100) w)

  unfoldable pub created_response : Context → String → Result Server × W → Response × W
  unfolding record_audit index_best_effort
  created_response c id (err e, w) =
      (respond 409 (error_body (b.message e)), record_audit c "server.create" id false w)
  created_response c id (ok out, w) = (
    respond 201 (server_body out),
    index_best_effort out (record_audit c "server.create" id true w),
  )

  -- the server of a request with its defaults; the UUID is only drawn where there is no id
  unfoldable pub with_defaults : Server → W → Server × W
  with_defaults s w =
      let s' = if s.status == "" then record s { status = "unknown" } else s in
      if s.id == ""
      then (let (uuid, w') = b.new_uuid w in (record s' { id = uuid }, w'))
      else (s', w)

  -- POST /v1/servers
  unfoldable pub post_server : Context → Option Server → W → Response × W
  unfolding with_defaults created_response
  post_server c none w = (respond 400 (error_body "invalid request"), w)
  post_server c (some s) w =
      let (s', w') = with_defaults s w in created_response c s'.id (b.store.create s' w')

  unfoldable pub servers_response : Result (List Server) × W → Response × W
  servers_response (err e, w) = (respond 500 (error_body (b.message e)), w)
  servers_response (ok out, w) = (respond 200 (servers_body out), w)

  -- GET /v1/servers
  unfoldable pub list_servers : W → Response × W
  unfolding servers_response
  list_servers w = servers_response (b.store.list w)

  unfoldable pub server_response : Result Server × W → Response × W
  server_response (err e, w) = (respond 404 (error_body "server not found"), w)
  server_response (ok out, w) = (respond 200 (server_body out), w)

  -- GET /v1/servers/:id
  unfoldable pub get_server : String → W → Response × W
  unfolding server_response
  get_server id w = server_response (b.store.get id w)

  unfoldable pub patched_response : Context → String → Result Server × W → Response × W
  unfolding record_audit index_best_effort
  patched_response c id (err e, w) =
      (respond 404 (error_body "server not found"), record_audit c "server.update" id false w)
  patched_response c id (ok out, w) = (
    respond 200 (server_body out),
    index_best_effort out (record_audit c "server.update" id true w),
  )

  -- PATCH /v1/servers/:id
  unfoldable pub patch_server : Context → String → Option Server → W → Response × W
  unfolding patched_response
  patch_server c id none w = (respond 400 (error_body "invalid request"), w)
  patch_server c id (some patch) w = patched_response c id (b.store.update id patch w)
