-- ===== src/Auth/Tokens.antt =====
-- Issue of internal/auth/jwt.go and the tokens that Middleware accepts.
use Prim.Native.String.{◌++◌ as append_text}
use terraform_provider_viett.Prelude.{
  ℕ, ◌+◌, ◌*◌, ◌/◌, ◌<◌, String, ◌≡◌, true, false, List, [], ◌∷◌, arith, if◌then◌else◌,
}
use terraform_provider_viett.Go.{invalid_role, ok, err}
use terraform_provider_viett.Go.Text.{has_prefix-append, trim_prefix-append}
use terraform_provider_viett.Auth.{
  Claims, Jwt, valid_role, token_lifetime, issue, Context, next, abort, identify, is_allowed,
  subject, role, guard,
}
use terraform_provider_viett.Auth.Guard.{Authenticated, guard-Authenticated}

-- the nanoseconds of the whole second of a time
abbrev pub whole_second : ℕ → ℕ
whole_second t = t / 1000000000 * 1000000000

-- As the JWT library documents it: parsing with the key that signed a token gives its claims back, as
-- valid, until they expire, where their times are whole seconds, and NewNumericDate cuts a time off at
-- its whole second.
pub record JwtLaws (jwt : Jwt) : Type 0 where
  pub whole_seconds : (t : ℕ) → jwt.new_numeric_date t ≡ whole_second t
  pub accepts :
      (secret token : String) (claims : Claims) (now : ℕ)
      → jwt.sign secret claims ≡ ok token
      → whole_second claims.expires_at ≡ claims.expires_at
      → whole_second claims.issued_at ≡ claims.issued_at
      → now < claims.expires_at
      → jwt.parse secret ("HS256" ∷ []) now token ≡ ok (claims, true)

module _ (jwt : Jwt) (laws : JwtLaws jwt) where
  numeric_date_whole : (t : ℕ) → whole_second (jwt.new_numeric_date t) ≡ jwt.new_numeric_date t
  numeric_date_whole t = rw (laws.whole_seconds t) (omega arith)

module _ (jwt : Jwt) where
  -- Issue gives a token for the three roles only.
  pub issue_invalid :
      (secret subject role : String) (now now' : ℕ)
      → valid_role role ≡ false
      → issue jwt secret subject role now now' ≡ err invalid_role
  unfolding issue
  issue_invalid secret subject role now now' h = rw (h, issue)

  pub issue_signed :
      (secret sub r : String) (now now' : ℕ) (token : String)
      → issue jwt secret sub r now now' ≡ ok token
      → (valid_role r ≡ true)
        × (jwt.sign secret (record {
          role = r;
          subject = sub;
          expires_at = jwt.new_numeric_date (now + token_lifetime);
          issued_at = jwt.new_numeric_date now';
        })
            ≡ ok token)
  unfolding issue
  issue_signed secret sub r now now' token h = ground arith

  -- With a JWT library whose times are whole seconds and whose parsing gives back what it signed until
  -- it expires: a token that Issue gave, sent as a bearer token before the whole second in which eight
  -- hours have passed, passes the guard of every route that allows its role, with its subject and role in
  -- the context, and gets status 403 from the guard of every other route.
  pub guard-issue :
      (laws : JwtLaws jwt) (secret sub r : String) (now now' : ℕ) (token : String) (c : Context)
      (roles : List String) (later : ℕ)
      → issue jwt secret sub r now now' ≡ ok token
      → c.authorization ≡ append_text "Bearer " token
      → later < whole_second (now + token_lifetime)
      → (c' : Context) × (guard jwt secret later roles c
          ≡ (if is_allowed roles r then next c' else abort 403 "insufficient permissions"))
        × (subject c' ≡ sub)
        × (role c' ≡ r)
  guard-issue laws secret sub r now now' token c roles later issued header fresh =
      let (known, signed) = issue_signed secret sub r now now' token issued in
      let claims : Claims = record {
        role = r;
        subject = sub;
        expires_at = jwt.new_numeric_date (now + token_lifetime);
        issued_at = jwt.new_numeric_date now';
      } in
      let a : Authenticated jwt secret later c claims = record {
        bearer = rw header (has_prefix-append "Bearer " token);
        parsed = rw header (
            rw trim_prefix-append (
              laws.accepts secret token claims later signed
                (numeric_date_whole jwt laws (now + token_lifetime))
                (numeric_date_whole jwt laws now')
                (rw (laws.whole_seconds (now + token_lifetime)) fresh)));
        known_role = known;
      } in
      let (guarded, subject_same, role_same) =
        guard-Authenticated jwt secret later c roles claims a in
      (identify c claims, guarded, subject_same, role_same)
