-- ===== src/Auth/Tests.antt =====
-- An instance with a password, and a library that signs one token.
use page_spy_api.Base.{
  ℕ, ◌+◌, ◌*◌, ◌/◌, ◌≤◌, ◌<◌, String, Bool, true, false, ◌&&◌, ◌⊎◌, inl, inr, none, some, [], ◌==◌,
  eqb, ltb, leb, arith, if◌then◌else◌, ◌≡◌, eq_iff, refl, sym, ap, subst,
}
use page_spy_api.Base.Text.{Free, space, split}
use page_spy_api.Failure.{GoError, text}
use page_spy_api.Settings.{Config}
use page_spy_api.Responses.{session, new_success_response}
use page_spy_api.Auth.{
  Claims, Jwt, is_password_set, verify_password, ensured, get_jwt_expiration_hours, json,
  new_claims, goes_on, auth, handle_verify, parse_token, init_jwt_secret,
}
use page_spy_api.Auth.Session.{IsJwt, bearer, Passes, auth-handle_verify, auth-Passes}

abbrev pub config : Config
config = record {
  port = "6752";
  debug = false;
  not_allowed_delete_log = false;
  rpc_address = [];
  self_rpc_address = none;
  cors_config = none;
  storage_config = none;
  mysql_url = none;
  max_room_number = 0;
  max_log_file_size_of_mb = 0;
  max_log_life_time_of_hour = 0;
  auth_config = some (record { password = "pw"; jwt_secret = "k"; token_expiration = 0 });
}

abbrev day : Claims
day = record { expires_at = 86405; issued_at = 5; not_before = 5; issuer = "page-spy" }

abbrev is_day : Claims → Bool
is_day c =
    (c.issuer == "page-spy")
    && (eqb c.expires_at 86405 && (eqb c.issued_at 5 && eqb c.not_before 5))

abbrev one_token : Jwt
one_token = record {
  sign = λ key c. if is_day c && key == "k" then inr "tok" else inl (text "not signed");
  parse = λ key now token.
      if key == "k" && (token == "tok" && (leb 5000000000 now && ltb now 86405000000000))
      then inr day
      else inl (text "not parsed");
}

is_day-eq : (c : Claims) → is_day c ≡ true → c ≡ day
is_day-eq c h = λ i. record {
  expires_at = (fields h).0 i;
  issued_at = (fields h).1 i;
  not_before = (fields h).2 i;
  issuer = named h i;
}
  where
    fields : is_day c ≡ true → (c.expires_at ≡ 86405) × (c.issued_at ≡ 5) × (c.not_before ≡ 5)
    fields h = ground arith

    first : (a b : Bool) → (a && b) ≡ true → a ≡ true
    first true b e = refl
    first false b e = e

    named : is_day c ≡ true → c.issuer ≡ "page-spy"
    named h = (eq_iff c.issuer "page-spy").0 (first (c.issuer == "page-spy") _ h)

token_of : GoError ⊎ String → String
token_of (inr t) = t
token_of (inl e) = ""

signed :
    (b : Bool) (token : String)
    → (if b then inr "tok" else inl (text "not signed")) ≡ inr token
    → (b ≡ true) × ("tok" ≡ token)
unfolding token_of
signed true token h = (refl, ap token_of h)
signed false token h = absurd cc

both : (b c : Bool) → (b && c) ≡ true → (b ≡ true) × (c ≡ true)
both b c h = ground arith

one_token-IsJwt : IsJwt one_token
one_token-IsJwt = record {
  spaceless = λ key token c h.
      subst (Free space) (signed (is_day c && key == "k") token h).1 (refl, (refl, (refl, tt)));
  parses = λ key token c now h from until.
      let (t, e) = signed (is_day c && key == "k") token h in
      let (d, k) = both (is_day c) (key == "k") t in
      let same = is_day-eq c d in
      let early : 5000000000 ≤ now = subst (λ x. x.not_before * 1000000000 ≤ now) same from in
      let late : now < 86405000000000 = subst (λ x. now < x.expires_at * 1000000000) same until in
      let fits : (leb 5000000000 now && ltb now 86405000000000) ≡ true = ground arith in
      rw (k, ← e, fits) (ap inr (sym same));
}

auth-handle_verify_example :
    (handle_verify one_token config "r" 5700000000 (some "pw") "" ≡ (
      json 200 (new_success_response (session "tok" (get_jwt_expiration_hours config * 3600))),
      ensured config "r" "",
    ))
    × ((later : ℕ)
        → 5700000000 ≤ later
        → later < (5700000000 / 1000000000 + get_jwt_expiration_hours config * 3600) * 1000000000
        → (random' : String)
        → auth one_token config random' later (bearer "tok") (ensured config "r" "")
          ≡ (goes_on (some (new_claims one_token config "r" 5700000000)), ensured config "r" ""))
unfolding is_password_set verify_password get_jwt_expiration_hours init_jwt_secret
auth-handle_verify_example =
    auth-handle_verify one_token one_token-IsJwt config "r" 5700000000 "pw" "" "tok" refl refl
      (omega arith) refl refl

auth-Passes_example : Passes one_token 6000000000 "k" "Bearer tok" (some day)
unfolding is_password_set auth parse_token split init_jwt_secret
auth-Passes_example =
    auth-Passes one_token config "r" 6000000000 "Bearer tok" "" "k" (some day) refl refl
