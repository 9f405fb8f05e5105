-- ===== src/Auth.antt =====
-- internal/auth/jwt.go: tokens, the middleware that authenticates a request and the one that checks its
-- role. The JWT library is a parameter. Of gin's context there is the Authorization header and the keys
-- that handlers set; a middleware either calls Next with the context or aborts with a status.
pub mod Guard
pub mod Tokens
use terraform_provider_viett.Prelude.{
  ℕ, ◌+◌, ◌*◌, String, Bool, true, false, not, Option, none, some, List, [], ◌∷◌, ◌==◌, ◌||◌,
  if◌then◌else◌,
}
use terraform_provider_viett.Go.{Failure, invalid_role, Result, ok, err}
use terraform_provider_viett.Go.Dict
use terraform_provider_viett.Go.Dict.{Dict}
use terraform_provider_viett.Go.Text.{has_prefix, trim_prefix}

abbrev pub role_viewer : String
role_viewer = "viewer"

abbrev pub role_operator : String
role_operator = "operator"

abbrev pub role_admin : String
role_admin = "admin"

abbrev pub context_subject : String
context_subject = "auth.subject"

abbrev pub context_role : String
context_role = "auth.role"

-- Claims with the registered claims that are set; times in nanoseconds
pub record Claims : Type 0 where
  pub role : String
  pub subject : String
  pub expires_at : ℕ
  pub issued_at : ℕ

-- The JWT library: NewNumericDate, HS256 signing, and parsing with a list of accepted methods at a time,
-- which gives the claims and whether the token is valid.
pub record Jwt : Type 0 where
  pub new_numeric_date : ℕ → ℕ
  pub sign : String → Claims → Result String
  pub parse : String → List String → ℕ → String → Result (Claims × Bool)

unfoldable pub valid_role : String → Bool
valid_role role = (role == role_viewer) || (role == role_operator) || (role == role_admin)

-- eight hours
abbrev pub token_lifetime : ℕ
token_lifetime = 8 * 3600 * 1000000000

-- Issue; the clock is read for ExpiresAt and for IssuedAt
unfoldable pub issue : Jwt → String → String → String → ℕ → ℕ → Result String
unfolding valid_role
issue jwt secret subject role now now' =
    if not (valid_role role)
    then err invalid_role
    else jwt.sign secret (record {
      role = role;
      subject = subject;
      expires_at = jwt.new_numeric_date (now + token_lifetime);
      issued_at = jwt.new_numeric_date now';
    })

-- a value that a handler keeps in a context: a string or something else
pub data Value : Type 0 where
  text : String → Value
  other : Value

pub record Context : Type 0 where
  pub authorization : String
  pub keys : Dict Value

pub data Outcome : Type 0 where
  next : Context → Outcome
  abort : ℕ → String → Outcome

-- the claims in a context
unfoldable pub identify : Context → Claims → Context
identify c claims = record c {
  keys =
      Dict.put (Dict.put c.keys context_subject (text claims.subject)) context_role
        (text claims.role);
}

-- what Middleware does with the outcome of ParseWithClaims
unfoldable pub admit : Context → Result (Claims × Bool) → Outcome
unfolding valid_role identify
admit c (err _) = abort 401 "invalid token"
admit c (ok (claims, valid)) =
    if not valid || not (valid_role claims.role)
    then abort 401 "invalid token"
    else next (identify c claims)

-- Middleware at a time
unfoldable pub middleware : Jwt → String → ℕ → Context → Outcome
unfolding admit has_prefix trim_prefix
middleware jwt secret now c =
    if not (has_prefix c.authorization "Bearer ")
    then abort 401 "missing bearer token"
    else admit c (jwt.parse secret ("HS256" ∷ []) now (trim_prefix c.authorization "Bearer "))

-- the lookup in the set of allowed roles
unfoldable pub is_allowed : List String → String → Bool
is_allowed [] role = false
is_allowed (r ∷ roles) role = (r == role) || is_allowed roles role

-- what RequireRole does with the value of the role in a context
unfoldable pub check_role : List String → Context → Option Value → Outcome
unfolding is_allowed
check_role roles c none = abort 401 "missing authenticated identity"
check_role roles c (some other) = abort 401 "invalid authenticated identity"
check_role roles c (some (text role)) =
    if is_allowed roles role then next c else abort 403 "insufficient permissions"

-- RequireRole
unfoldable pub require_role : List String → Context → Outcome
unfolding check_role
require_role roles c = check_role roles c (Dict.get c.keys context_role)

-- a value as a string, "" where it is none
unfoldable pub string_value : Option Value → String
string_value none = ""
string_value (some other) = ""
string_value (some (text s)) = s

-- Subject
unfoldable pub subject : Context → String
unfolding string_value
subject c = string_value (Dict.get c.keys context_subject)

-- Role
unfoldable pub role : Context → String
unfolding string_value
role c = string_value (Dict.get c.keys context_role)

-- the middlewares of a route, in order
unfoldable pub then_handler : Outcome → (Context → Outcome) → Outcome
then_handler (abort status message) handler = abort status message
then_handler (next c) handler = handler c

-- the chain of a route under /v1 with RequireRole
unfoldable pub guard : Jwt → String → ℕ → List String → Context → Outcome
unfolding middleware require_role then_handler
guard jwt secret now roles c = then_handler (middleware jwt secret now c) (require_role roles)
