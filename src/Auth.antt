-- ===== src/Auth.antt =====
-- serve/middleware/auth.go and jwt.go, and the route /auth/verify of serve/route/route.go. The JWT
-- library is a parameter; the signing key is the state. The clock counts nanoseconds, and a claim's
-- time seconds; a time.Duration is an int of 64 bits.
pub mod Session
pub mod Tests
use page_spy_api.Base.{
  ℕ, ◌+◌, ◌-◌, ◌*◌, ◌/◌, ◌%◌, ltb, String, Bool, true, false, not, ◌⊎◌, inl, inr, Option, none,
  some, List, [], ◌∷◌, ◌==◌, if◌then◌else◌,
}
use page_spy_api.Base.Int.{at_most_zero}
use page_spy_api.Base.Text.{split, space}
use page_spy_api.Failure.{GoError, text}
use page_spy_api.Settings.{Config, AuthConfig}
use page_spy_api.Responses.{
  Response, HttpReply, session, new_error_response_with_code, new_success_response,
}

-- Claims: of the registered ones, those that GenerateToken sets
pub record Claims : Type 0 where
  pub expires_at : ℕ
  pub issued_at : ℕ
  pub not_before : ℕ
  pub issuer : String

-- jwt.NewNumericDate: the seconds of a time
abbrev pub new_numeric_date : ℕ → ℕ
new_numeric_date t = t / 1000000000

-- time.Hour * time.Duration(hours)
abbrev pub hours_long : ℕ → ℕ
hours_long hours = (3600000000000 * hours) % 18446744073709551616

-- t.Add(d), of a duration that may be negative; a time before the epoch is the epoch here.
abbrev pub add_duration : ℕ → ℕ → ℕ
add_duration t d = if ltb d 9223372036854775808 then t + d else t - (18446744073709551616 - d)

-- The JWT library with the method HS256: to sign with a key, and to parse with it at a time.
pub record Jwt : Type 0 where
  pub sign : String → Claims → GoError ⊎ String
  pub parse : String → ℕ → String → GoError ⊎ Claims

-- IsPasswordSet
unfoldable pub is_password_set : Config → Bool
is_password_set c = elim c.auth_config [ none ↦ false | some a ↦ not (a.password == "") ]

-- VerifyPassword
unfoldable pub verify_password : Config → String → Bool
verify_password c password = elim c.auth_config [ none ↦ false | some a ↦ a.password == password ]

abbrev secret_or : String → AuthConfig → String
secret_or random a = if a.jwt_secret == "" then random else a.jwt_secret

-- InitJWTSecret, with the random key that it may draw
unfoldable pub init_jwt_secret : Config → String → String
init_jwt_secret c random = elim c.auth_config [ none ↦ random | some a ↦ secret_or random a ]

-- len(jwtSecret) == 0
abbrev pub ensured : Config → String → String → String
ensured c random key = if key == "" then init_jwt_secret c random else key

abbrev hours_of : AuthConfig → ℕ
hours_of a = if at_most_zero a.token_expiration then 24 else a.token_expiration

-- GetJWTExpirationHours
unfoldable pub get_jwt_expiration_hours : Config → ℕ
get_jwt_expiration_hours c = elim c.auth_config [ none ↦ 24 | some a ↦ hours_of a ]

-- An answer of echo, with a status
abbrev pub json : ℕ → Response → HttpReply
json status r = record { status = status; body = r }

-- What Auth does with a request: it goes on, with claims if a password is set, or is answered.
pub data Verdict : Type 0 where
  goes_on : Option Claims → Verdict
  answers : HttpReply → Verdict

module _ (jwt : Jwt) (c : Config) (random : String) (now : ℕ) where
  -- The token, and the hours that it lives
  abbrev with_hours : GoError ⊎ String → GoError ⊎ (String × ℕ)
  with_hours (inr token) = inr (token, get_jwt_expiration_hours c)
  with_hours (inl e) = inl e

  abbrev pub new_claims : Claims
  new_claims = record {
    expires_at = new_numeric_date (add_duration now (hours_long (get_jwt_expiration_hours c)));
    issued_at = new_numeric_date now;
    not_before = new_numeric_date now;
    issuer = "page-spy";
  }

  -- GenerateToken
  unfoldable pub generate_token : String → (GoError ⊎ (String × ℕ)) × String
  generate_token key = let k = ensured c random key in (with_hours (jwt.sign k new_claims), k)

  -- ParseToken
  unfoldable pub parse_token : String → String → GoError ⊎ Claims
  parse_token key token =
      if key == "" then inl (text "JWT secret not initialized") else jwt.parse key now token

  abbrev unauthorized : String → String → Verdict
  unauthorized message code = answers (json 401 (new_error_response_with_code message code))

  abbrev pub by_claims : GoError ⊎ Claims → Verdict
  by_claims (inr claims) = goes_on (some claims)
  by_claims (inl e) =
      unauthorized "Authentication token expired or invalid" "EXPIRED_OR_INVALID_TOKEN"

  abbrev bad_format : Verdict
  bad_format = unauthorized "Invalid authentication token format" "INVALID_TOKEN_FORMAT"

  abbrev pub by_parts : String → List String → Verdict
  by_parts key (scheme ∷ token ∷ []) =
      if scheme == "Bearer" then by_claims (parse_token key token) else bad_format
  by_parts key _ = bad_format

  abbrev pub by_header : String → String → Verdict
  by_header key header =
      if header == ""
      then unauthorized "Authentication token not provided" "MISSING_TOKEN"
      else by_parts key (split space header)

  -- Auth, on the header Authorization
  unfoldable pub auth : String → String → Verdict × String
  unfolding parse_token
  auth header key =
      if is_password_set c
      then (let k = ensured c random key in (by_header k header, k))
      else (goes_on none, key)

  abbrev tokened : GoError ⊎ (String × ℕ) → HttpReply
  tokened (inr (token, hours)) =
      json 200 (new_success_response (session token ((hours * 3600) % 18446744073709551616)))
  tokened (inl e) =
      json 500 (new_error_response_with_code "Failed to generate token" "TOKEN_GENERATION_FAILED")

  abbrev pub answer_token : (GoError ⊎ (String × ℕ)) × String → HttpReply × String
  answer_token (r, key) = (tokened r, key)

  -- The handler of /auth/verify, on the password of the request's body, if it has the format
  unfoldable pub handle_verify : Option String → String → HttpReply × String
  unfolding generate_token
  handle_verify none key =
      (json 400 (new_error_response_with_code "Invalid request format" "INVALID_REQUEST"), key)
  handle_verify (some password) key =
      if not (is_password_set c)
      then (
        json 200 (
            new_error_response_with_code "System password not set, please set a password first"
              "PASSWORD_REQUIRED"),
        key,
      )
      else if not (verify_password c password)
      then (json 200 (new_error_response_with_code "Incorrect password" "INVALID_PASSWORD"), key)
      else answer_token (generate_token key)
