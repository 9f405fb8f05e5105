-- ===== src/Api/Access.antt =====
-- POST /auth/token of cmd/api/main.go together with the guard of the routes under /v1.
use Prim.Native.String.{◌++◌ as append_text}
use terraform_provider_viett.Prelude.{
  ℕ, ◌+◌, ◌<◌, String, ◌≡◌, ◌≢◌, refl, ◌∙◌, true, some, List, ==-ne,
}
use terraform_provider_viett.Go.{Failure, ok}
use terraform_provider_viett.Auth.{
  Jwt, token_lifetime, issue, Context, next, is_allowed, role_operator, subject, role, guard,
}
use terraform_provider_viett.Auth.Tokens.{whole_second, JwtLaws, guard-issue}
use terraform_provider_viett.Api.Call.{respond, token_body}
use terraform_provider_viett.Api.Calls.{TokenRequest, or_default, token_response, post_token}

or_default_given : (given default : String) → given ≢ "" → or_default given default ≡ given
unfolding or_default
or_default_given given default h = rw (==-ne given "" h, or_default)

module _ (jwt : Jwt) (message : Failure → String) (secret : String) (now now' : ℕ)
    (request : TokenRequest) where
  post_token_issued :
      (token : String)
      → request.subject ≢ ""
      → request.role ≢ ""
      → issue jwt secret request.subject request.role now now' ≡ ok token
      → post_token jwt message secret now now' (some request)
        ≡ respond 200 (token_body token request.role)
  unfolding post_token token_response
  post_token_issued token sub r issued = rw (
    or_default_given request.subject "operator" sub,
    or_default_given request.role role_operator r,
    issued,
    token_response,
    or_default_given request.role role_operator r,
  )

  -- POST /auth/token asks for no credentials. With a JWT library whose times are whole seconds and
  -- whose parsing gives back what it signed until it expires, for every subject and role of a request
  -- that are not empty and for which Issue gives a token, "admin" too, the handler answers 200 with
  -- that token, which passes, until the whole second in which eight hours have passed, the guard of
  -- every route that allows the role, under the subject of the request.
  pub guard-post_token :
      (laws : JwtLaws jwt) (token : String) (c : Context) (roles : List String) (later : ℕ)
      → request.subject ≢ ""
      → request.role ≢ ""
      → issue jwt secret request.subject request.role now now' ≡ ok token
      → c.authorization ≡ append_text "Bearer " token
      → later < whole_second (now + token_lifetime)
      → is_allowed roles request.role ≡ true
      → (post_token jwt message secret now now' (some request)
          ≡ respond 200 (token_body token request.role))
        × ((c' : Context) × (guard jwt secret later roles c ≡ next c')
            × (subject c' ≡ request.subject)
            × (role c' ≡ request.role))
  guard-post_token laws token c roles later sub r issued header fresh allowed =
      let (c', guarded, subject_same, role_same) =
        guard-issue jwt laws secret request.subject request.role now now' token c roles later issued
          header fresh in
      (
        post_token_issued token sub r issued,
        (c', (guarded ∙ rw allowed refl), subject_same, role_same),
      )
