-- ===== src/Tests/Auth.antt =====
-- internal/auth/jwt.go and POST /auth/token with a JWT library whose tokens are the name of a role: its key
-- is fixed, its subject is "ops" and its tokens expire at 100 hours.
use Prim.Native.String.{◌++◌ as append_text}
use terraform_provider_viett.Prelude.{
  ℕ, ◌+◌, ◌&&◌, String, ◌≡◌, refl, Bool, true, some, [], ◌∷◌, arith, num_eq, eq_iff, ◌==◌,
  if◌then◌else◌,
}
use terraform_provider_viett.Go.{external, ok, err}
use terraform_provider_viett.Go.Dict
use terraform_provider_viett.Go.Text.{has_prefix, trim_prefix}
use terraform_provider_viett.Auth.{
  Claims, valid_role, Jwt, issue, Context, next, abort, token_lifetime, is_allowed, role_admin,
  subject, role, guard, identify,
}
use terraform_provider_viett.Auth.Guard.{Authenticated, guard_passes}
use terraform_provider_viett.Auth.Tokens.{whole_second, JwtLaws, guard-issue}
use terraform_provider_viett.Api.Call.{respond, token_body}
use terraform_provider_viett.Api.Calls.{TokenRequest, post_token}
use terraform_provider_viett.Api.Access.{guard-post_token}

-- within the sixth and the seventh second
abbrev at_five : ℕ
at_five = 5400000000

abbrev at_six : ℕ
at_six = 6300000000

abbrev ops_claims : String → Claims
ops_claims r = record {
  role = r;
  subject = "ops";
  expires_at = whole_second (at_five + token_lifetime);
  issued_at = whole_second at_six;
}

unfoldable is_ops : Claims → Bool
is_ops claims =
    (claims.subject == "ops")
    && num_eq claims.expires_at (whole_second (at_five + token_lifetime))
    && num_eq claims.issued_at (whole_second at_six)

abbrev test_jwt : Jwt
test_jwt = record {
  new_numeric_date = whole_second;
  sign = λ secret claims. if is_ops claims then ok claims.role else err (external "key");
  parse = λ secret methods now token. ok (ops_claims token, true);
}

is_ops_lem : (claims : Claims) → is_ops claims ≡ true → claims ≡ ops_claims claims.role
unfolding is_ops
is_ops_lem claims h = ground (arith, eq_iff claims.subject "ops")

test_jwt-laws : JwtLaws test_jwt
test_jwt-laws = record {
  whole_seconds = λ t. refl;
  accepts = λ secret token claims now signed whole whole' fresh. ground (arith, is_ops_lem claims);
}

abbrev admin_request : Context
admin_request = record { authorization = append_text "Bearer " "admin"; keys = [] }

admin-Authenticated : Authenticated test_jwt "secret" 9 admin_request (ops_claims "admin")
unfolding has_prefix trim_prefix valid_role
admin-Authenticated = record { bearer = refl; parsed = refl; known_role = refl }

admin_issued : issue test_jwt "secret" "ops" "admin" at_five at_six ≡ ok "admin"
unfolding issue is_ops
admin_issued = refl

guard_passes_example :
    (claims : Claims) × Authenticated test_jwt "secret" 9 admin_request claims
    × (is_allowed (role_admin ∷ []) claims.role ≡ true)
    × (subject (identify admin_request (ops_claims "admin")) ≡ claims.subject)
    × (role (identify admin_request (ops_claims "admin")) ≡ claims.role)
unfolding guard is_allowed Dict.get Dict.put
guard_passes_example =
    guard_passes test_jwt "secret" 9 admin_request (role_admin ∷ [])
      (identify admin_request (ops_claims "admin")) refl

guard-issue_example :
    (c' : Context) × (guard test_jwt "secret" 9 (role_admin ∷ []) admin_request ≡ (
      if is_allowed (role_admin ∷ []) "admin"
      then next c'
      else abort 403 "insufficient permissions"))
    × (subject c' ≡ "ops")
    × (role c' ≡ "admin")
guard-issue_example =
    guard-issue test_jwt test_jwt-laws "secret" "ops" "admin" at_five at_six "admin" admin_request
      (role_admin ∷ []) 9 admin_issued refl (omega arith)

abbrev any_client : TokenRequest
any_client = record { subject = "ops"; role = "admin" }

guard-post_token_example :
    (post_token test_jwt (λ e. "failed") "secret" at_five at_six (some any_client)
      ≡ respond 200 (token_body "admin" "admin"))
    × ((c' : Context) × (guard test_jwt "secret" 9 (role_admin ∷ []) admin_request ≡ next c')
        × (subject c' ≡ "ops")
        × (role c' ≡ "admin"))
unfolding is_allowed
guard-post_token_example =
    guard-post_token test_jwt (λ e. "failed") "secret" at_five at_six any_client test_jwt-laws
      "admin" admin_request (role_admin ∷ []) 9 (λ e. cc) (λ e. cc) admin_issued refl (omega arith)
      refl
