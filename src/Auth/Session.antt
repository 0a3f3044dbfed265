-- ===== src/Auth/Session.antt =====
-- A token, from the password to the requests that it lets through.
use page_spy_api.Base.{
  ℕ, ◌+◌, ◌*◌, ◌/◌, ◌%◌, ◌≤◌, ◌<◌, String, Bool, true, false, ◌⊎◌, inl, inr, Option, none, some,
  List, [], ◌∷◌, ◌==◌, eq_iff, arith, ==-false, ◌≡◌, refl, sym, ap, subst, ◌∙◌, Bool-cases,
}
use page_spy_api.Base.Text.{
  Free, split, join, split-append, split-Free, join-split, concat, concat-ne-nil, space, space_text,
}
use page_spy_api.Failure.{GoError}
use page_spy_api.Settings.{Config}
use page_spy_api.Responses.{session, new_success_response}
use page_spy_api.Auth.{
  Claims, Jwt, new_numeric_date, hours_long, add_duration, is_password_set, verify_password,
  init_jwt_secret, ensured, get_jwt_expiration_hours, json, new_claims, generate_token, parse_token,
  Verdict, goes_on, answers, by_claims, by_header, by_parts, auth, handle_verify,
}

-- Documented behaviour of the JWT library: a token has no space, and parses with the key that signed
-- it while its claims are valid.
pub record IsJwt (jwt : Jwt) : Type 0 where
  pub spaceless :
      (key token : String) (claims : Claims) → jwt.sign key claims ≡ inr token → Free space token
  pub parses :
      (key token : String) (claims : Claims) (now : ℕ)
      → jwt.sign key claims ≡ inr token
      → claims.not_before * 1000000000 ≤ now
      → now < claims.expires_at * 1000000000
      → jwt.parse key now token ≡ inr claims

ensured_lem :
    (c : Config) (random key : String)
    → (random == "") ≡ false
    → (ensured c random key == "") ≡ false
unfolding init_jwt_secret
ensured_lem c random key h = ground arith

ensured_again :
    (c : Config) (random key : String) → (key == "") ≡ false → ensured c random key ≡ key
ensured_again c random key h = rw h refl

unfoldable pub bearer : String → String
bearer token = concat "Bearer" (concat " " token)

plain : Free space "Bearer"
plain = (refl, (refl, (refl, (refl, (refl, (refl, tt))))))

split-bearer :
    (token : String) → Free space token → split space (bearer token) ≡ "Bearer" ∷ token ∷ []
unfolding bearer
split-bearer token h =
    rw (space_text token, split-append space "Bearer" token plain, split-Free space token h) refl

bearer-ne-empty : (token : String) → (bearer token == "") ≡ false
unfolding bearer
bearer-ne-empty token =
    ==-false (concat "Bearer" (concat " " token)) "" (concat-ne-nil _ "earer" (concat " " token))

-- The durations of at most 2562047 hours, which are those that fit.
hours_fit : (hours : ℕ) → hours ≤ 2562047 → hours_long hours ≡ 3600000000000 * hours
hours_fit hours h = omega (arith, h)

expiry_lem :
    (now hours : ℕ)
    → hours ≤ 2562047
    → add_duration now (hours_long hours) ≡ now + 3600000000000 * hours
expiry_lem now hours h = rw (hours_fit hours h) (ground arith)

seconds_fit : (hours : ℕ) → hours ≤ 2562047 → (hours * 3600) % 18446744073709551616 ≡ hours * 3600
seconds_fit hours h = omega (arith, h)

started : (now later : ℕ) → now ≤ later → new_numeric_date now * 1000000000 ≤ later
started now later h = omega (arith, h)

module _ (jwt : Jwt) (law : IsJwt jwt) (c : Config) (random : String) (now : ℕ) where
  -- On a configuration with a password and a token's life of at most 2562047 hours, the right
  -- password is answered by /auth/verify with a token and its life in seconds, and until the second
  -- in which the token expires, that many seconds after it was made, a request with it in its header
  -- passes Auth with the token's claims; the token must be one that can be signed, and a key that is
  -- drawn must not be empty.
  pub auth-handle_verify :
      (password key token : String)
      → (random == "") ≡ false
      → is_password_set c ≡ true
      → get_jwt_expiration_hours c ≤ 2562047
      → verify_password c password ≡ true
      → jwt.sign (ensured c random key) (new_claims jwt c random now) ≡ inr token
      → (handle_verify jwt c random now (some password) key ≡ (
        json 200 (new_success_response (session token (get_jwt_expiration_hours c * 3600))),
        ensured c random key,
      ))
        × ((later : ℕ)
            → now ≤ later
            → later < (now / 1000000000 + get_jwt_expiration_hours c * 3600) * 1000000000
            → (random' : String)
            → auth jwt c random' later (bearer token) (ensured c random key)
              ≡ (goes_on (some (new_claims jwt c random now)), ensured c random key))
  unfolding handle_verify generate_token auth parse_token
  auth-handle_verify password key token drawn set fits right signed = (
    rw (set, right, signed, seconds_fit (get_jwt_expiration_hours c) fits) refl,
    λ later from until random'.
        rw
          (
            set,
            ensured_again c random' (ensured c random key) (ensured_lem c random key drawn),
            bearer-ne-empty token,
            split-bearer token (law.spaceless _ token _ signed),
            ensured_lem c random key drawn,
            law.parses _ token _ later signed (started now later from)
                (open_until later until fits),
          )
          refl,
  )
    where
      open_until :
          (later : ℕ)
          → later < (now / 1000000000 + get_jwt_expiration_hours c * 3600) * 1000000000
          → get_jwt_expiration_hours c ≤ 2562047
          → later < (new_claims jwt c random now).expires_at * 1000000000
      open_until later until fits =
          rw (expiry_lem now (get_jwt_expiration_hours c) fits) (omega (arith, until))

abbrev pub Passes : Jwt → ℕ → String → String → Option Claims → Type 0
Passes jwt now key header o =
    (token : String) × (claims : Claims) × (header ≡ bearer token)
    × (jwt.parse key now token ≡ inr claims)
    × (o ≡ some claims)

claims_of : Option Claims → Verdict → Option Claims
claims_of o (goes_on p) = p
claims_of o (answers r) = o

does_go : Verdict → Bool
does_go (goes_on o) = true
does_go (answers r) = false

module _ (jwt : Jwt) (c : Config) (random : String) (now : ℕ) where
  parsed :
      (key token : String) (claims : Claims)
      → parse_token jwt c random now key token ≡ inr claims
      → jwt.parse key now token ≡ inr claims
  unfolding parse_token
  parsed key token claims h = elim (Bool-cases (key == "")) [
    | inl e ↦ absurd (let f = rw e at h in cc)
    | inr e ↦ rw e at h
  ]

  by_claims_lem :
      (r : GoError ⊎ Claims) (o : Option Claims)
      → by_claims jwt c random now r ≡ goes_on o
      → (claims : Claims) × (r ≡ inr claims) × (o ≡ some claims)
  unfolding does_go claims_of
  by_claims_lem (inr claims) o h = (claims, refl, sym (ap (claims_of none) h))
  by_claims_lem (inl e) o h = absurd (let f : false ≡ true = ap does_go h in cc)

  by_parts_lem :
      (key : String) (parts : List String) (o : Option Claims)
      → by_parts jwt c random now key parts ≡ goes_on o
      → (token : String) × (parts ≡ "Bearer" ∷ token ∷ [])
        × (claims : Claims) × (jwt.parse key now token ≡ inr claims)
        × (o ≡ some claims)
  unfolding does_go
  by_parts_lem key [] o h = absurd (let f : false ≡ true = ap does_go h in cc)
  by_parts_lem key (s ∷ []) o h = absurd (let f : false ≡ true = ap does_go h in cc)
  by_parts_lem key (s ∷ t ∷ u ∷ rest) o h = absurd (let f : false ≡ true = ap does_go h in cc)
  by_parts_lem key (s ∷ t ∷ []) o h = elim (Bool-cases (s == "Bearer")) [
    | inl e ↦
        let (claims, p, q) = by_claims_lem (parse_token jwt c random now key t) o (rw e at h) in
        (t, ap (λ x. x ∷ t ∷ []) ((eq_iff s "Bearer").0 e), claims, parsed key t claims p, q)
    | inr e ↦ absurd (let f : false ≡ true = ap does_go (rw e at h) in cc)
  ]

  by_header_lem :
      (key header : String) (o : Option Claims)
      → by_header jwt c random now key header ≡ goes_on o
      → Passes jwt now key header o
  unfolding does_go bearer
  by_header_lem key header o h = elim (Bool-cases (header == "")) [
    | inl e ↦ absurd (let f : false ≡ true = ap does_go (rw e at h) in cc)
    | inr e ↦
        let (token, parts, claims, p, q) = by_parts_lem key (split space header) o (rw e at h) in
        let text : concat "Bearer" (concat " " token) ≡ header =
          ap (concat "Bearer") (space_text token)
          ∙ ap (join space) (sym parts)
          ∙ join-split space header in
        (token, claims, sym text, p, q)
  ]

  -- If a password is set, a request that passes Auth has a header of the scheme Bearer with a token
  -- that the JWT library parses now with the signing key, and goes on with its claims.
  pub auth-Passes :
      (header key key' : String) (o : Option Claims)
      → is_password_set c ≡ true
      → auth jwt c random now header key ≡ (goes_on o, key')
      → Passes jwt now key' header o
  unfolding auth
  auth-Passes header key key' o set h =
      let h' = rw set at h in
      let keys : ensured c random key ≡ key' = ap (λ p. p.1) h' in
      subst (λ k. Passes jwt now k header o) keys
        (by_header_lem (ensured c random key) header o (ap (λ p. p.0) h'))
