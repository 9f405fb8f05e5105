-- ===== src/Auth/Guard.antt =====
-- The chain of Middleware and RequireRole of internal/auth/jwt.go.
use terraform_provider_viett.Prelude.{
  ℕ, String, ◌≡◌, refl, sym, ◌∙◌, ap, Bool, true, false, some, List, [], ◌∷◌, arith, if◌then◌else◌,
}
use terraform_provider_viett.Go.{Result, ok, err}
use terraform_provider_viett.Go.Dict
use terraform_provider_viett.Go.Dict.{get-put}
use terraform_provider_viett.Go.Text.{has_prefix, trim_prefix}
use terraform_provider_viett.Auth.{
  Claims, Jwt, valid_role, Context, Outcome, next, abort, text, identify, admit, middleware,
  is_allowed, check_role, require_role, string_value, subject, role, then_handler, guard,
  context_subject, context_role,
}

role-identify :
    (c : Context) (claims : Claims)
    → Dict.get (identify c claims).keys context_role ≡ some (text claims.role)
unfolding identify
role-identify c claims = simp get-put

subject-identify :
    (c : Context) (claims : Claims)
    → Dict.get (identify c claims).keys context_subject ≡ some (text claims.subject)
unfolding identify
subject-identify c claims = simp get-put

-- A token was parsed as valid and names a role that exists.
pub record Authenticated (jwt : Jwt) (secret : String) (now : ℕ) (c : Context) (claims : Claims)
    : Type 0 where
  pub bearer : has_prefix c.authorization "Bearer " ≡ true
  pub parsed :
      jwt.parse secret ("HS256" ∷ []) now (trim_prefix c.authorization "Bearer ")
      ≡ ok (claims, true)
  pub known_role : valid_role claims.role ≡ true

module _ (jwt : Jwt) (secret : String) (now : ℕ) (c : Context) where
  middleware-Authenticated :
      (claims : Claims)
      → Authenticated jwt secret now c claims
      → middleware jwt secret now c ≡ next (identify c claims)
  unfolding middleware
  middleware-Authenticated claims a = ground (arith, a.bearer, a.parsed, a.known_role)

  admit_passes :
      (out : Result (Claims × Bool)) (c' : Context)
      → admit c out ≡ next c'
      → (claims : Claims) × (out ≡ ok (claims, true))
        × (valid_role claims.role ≡ true)
        × (c' ≡ identify c claims)
  unfolding admit
  admit_passes (err e) c' h = cc
  admit_passes (ok (claims, false)) c' h = cc
  admit_passes (ok (claims, true)) c' h = (claims, refl, ground arith, ground arith)

  middleware_parsed :
      (c' : Context)
      → middleware jwt secret now c ≡ next c'
      → (has_prefix c.authorization "Bearer " ≡ true)
        × (admit c (jwt.parse secret ("HS256" ∷ []) now (trim_prefix c.authorization "Bearer "))
            ≡ next c')
  unfolding middleware
  middleware_parsed c' h = ground arith

  middleware_passes :
      (c' : Context)
      → middleware jwt secret now c ≡ next c'
      → (claims : Claims) × Authenticated jwt secret now c claims × (c' ≡ identify c claims)
  middleware_passes c' h =
      let (bearer, admitted) = middleware_parsed c' h in
      let (claims, parsed, known_role, same) =
        admit_passes (jwt.parse secret ("HS256" ∷ []) now (trim_prefix c.authorization "Bearer "))
          c' admitted in
      (claims, record { bearer = bearer; parsed = parsed; known_role = known_role }, same)

  middleware_aborts :
      (status : ℕ) (message : String)
      → middleware jwt secret now c ≡ abort status message
      → status ≡ 401
  unfolding middleware
  middleware_aborts status message h = ground arith

  require_role_identified :
      (roles : List String) (claims : Claims)
      → require_role roles (identify c claims) ≡ (
          if is_allowed roles claims.role
          then next (identify c claims)
          else abort 403 "insufficient permissions")
  unfolding require_role
  require_role_identified roles claims = rw (role-identify c claims, check_role)

  -- The guard of a route with an authenticated request: it goes on if the role of its token is one of
  -- the route's, with the subject and the role of the token in the context, and is answered with 403 if
  -- not.
  pub guard-Authenticated :
      (roles : List String) (claims : Claims)
      → Authenticated jwt secret now c claims
      → (guard jwt secret now roles c ≡ (
          if is_allowed roles claims.role
          then next (identify c claims)
          else abort 403 "insufficient permissions"))
        × (subject (identify c claims) ≡ claims.subject)
        × (role (identify c claims) ≡ claims.role)
  unfolding guard subject role
  guard-Authenticated roles claims a = (
    rw (middleware-Authenticated claims a, then_handler) (require_role_identified roles claims),
    ap string_value (subject-identify c claims),
    ap string_value (role-identify c claims),
  )

  guard_inversion :
      (roles : List String) (c' : Context)
      → guard jwt secret now roles c ≡ next c'
      → (m : Context) × (middleware jwt secret now c ≡ next m) × (require_role roles m ≡ next c')
  unfolding guard
  guard_inversion roles c' h = by_middleware (middleware jwt secret now c) refl h
    where
      by_middleware :
          (o : Outcome)
          → middleware jwt secret now c ≡ o
          → then_handler o (require_role roles) ≡ next c'
          → (m : Context) × (middleware jwt secret now c ≡ next m)
            × (require_role roles m ≡ next c')
      by_middleware (next m) e h' = (m, e, h')
      by_middleware (abort status message) e h' = cc

  allowed_of_next :
      (roles : List String) (claims : Claims) (c' : Context)
      → (if is_allowed roles claims.role
          then next (identify c claims)
          else abort 403 "insufficient permissions")
        ≡ next c'
      → (is_allowed roles claims.role ≡ true) × (c' ≡ identify c claims)
  allowed_of_next roles claims c' h = ground arith

  -- A handler behind the guard runs only for a request whose bearer token was parsed as valid and names
  -- an existing role that the route allows, and it sees the subject and the role of that token.
  pub guard_passes :
      (roles : List String) (c' : Context)
      → guard jwt secret now roles c ≡ next c'
      → (claims : Claims) × Authenticated jwt secret now c claims
        × (is_allowed roles claims.role ≡ true)
        × (subject c' ≡ claims.subject)
        × (role c' ≡ claims.role)
  guard_passes roles c' h =
      let (m, passed, required) = guard_inversion roles c' h in
      let (claims, a, same) = middleware_passes m passed in
      let (allowed, same') = allowed_of_next roles claims c' (
        sym (require_role_identified roles claims)
        ∙ ap (require_role roles) (sym same)
        ∙ required) in
      let (_, subject_same, role_same) = guard-Authenticated roles claims a in
      (claims, a, allowed, ap subject same' ∙ subject_same, ap role same' ∙ role_same)
