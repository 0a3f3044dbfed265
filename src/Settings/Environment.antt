-- ===== src/Settings/Environment.antt =====
-- What the defaults and the environment guarantee, and that a restart keeps the configuration.
use page_spy_api.Base.{
  ℕ, ◌*◌, ◌<◌, String, false, Option, none, some, ◌==◌, arith, if◌then◌else◌, ◌≡◌, refl, sym, ap,
  ◌∙◌, inl, inr, Bool-cases,
}
use page_spy_api.Base.Number.{atoi}
use page_spy_api.Settings.{
  Config, AuthConfig, EnvVars, auth_or_new, set_password, set_secret, hours_or, set_expiration,
  is_any_set, load_auth_config_from_env, get_max_log_life_time_of_hour, get_max_log_file_size_of_mb,
  get_max_room_number, max_size_of_byte,
}

-- Whatever 64 bits the configuration holds, the life time of logs, their size and the number of rooms
-- are above 0 and not negative, and the size in bytes is exact if that in megabytes is below
-- 2 ^ 43.
pub limits-Positive :
    (c : Config)
    → (0 < get_max_log_life_time_of_hour c)
      × (get_max_log_life_time_of_hour c < 9223372036854775808)
      × (0 < get_max_log_file_size_of_mb c)
      × (get_max_log_file_size_of_mb c < 9223372036854775808)
      × (0 < get_max_room_number c)
      × (get_max_room_number c < 9223372036854775808)
      × (get_max_log_file_size_of_mb c < 8796093022208
          → max_size_of_byte c ≡ get_max_log_file_size_of_mb c * 1048576)
unfolding get_max_log_life_time_of_hour get_max_log_file_size_of_mb get_max_room_number
    max_size_of_byte
limits-Positive c = (
  ground arith,
  ground arith,
  ground arith,
  ground arith,
  ground arith,
  ground arith,
  λ h. omega arith,
)

-- The three fields that the environment sets.
abbrev new_secret : EnvVars → String → String → String
new_secret e random old =
    if e.jwt_secret_var == ""
    then (if e.auth_password == "" then old else (if old == "" then random else old))
    else e.jwt_secret_var

abbrev new_hours : EnvVars → ℕ → ℕ
new_hours e old =
    if e.jwt_expiration_hours == "" then old else hours_or old (atoi e.jwt_expiration_hours)

abbrev set_all : EnvVars → String → AuthConfig → AuthConfig
set_all e random a = record {
  password = if e.auth_password == "" then a.password else e.auth_password;
  jwt_secret = new_secret e random a.jwt_secret;
  token_expiration = new_hours e a.token_expiration;
}

abbrev three_steps : EnvVars → String → AuthConfig → AuthConfig
three_steps e random a = set_expiration e (set_secret e random (set_password e a))

steps_lem :
    (e : EnvVars) (random : String) (a : AuthConfig) → three_steps e random a ≡ set_all e random a
steps_lem e random a = ground arith

secret_again :
    (e : EnvVars) (random random' old : String)
    → (random == "") ≡ false
    → new_secret e random' (new_secret e random old) ≡ new_secret e random old
secret_again e random random' old h = ground arith

hours_again : (old : ℕ) (o : Option ℕ) → hours_or (hours_or old o) o ≡ hours_or old o
hours_again old none = refl
hours_again old (some n) = ground arith

new_hours_again : (e : EnvVars) (old : ℕ) → new_hours e (new_hours e old) ≡ new_hours e old
new_hours_again e old = ground (arith, hours_again old (atoi e.jwt_expiration_hours))

set_all_again :
    (e : EnvVars) (random random' : String) (a : AuthConfig)
    → (random == "") ≡ false
    → set_all e random' (set_all e random a) ≡ set_all e random a
set_all_again e random random' a h = λ i. record {
  password = passwords i;
  jwt_secret = secret_again e random random' a.jwt_secret h i;
  token_expiration = new_hours_again e a.token_expiration i;
}
  where
    passwords :
        (if e.auth_password == ""
          then (if e.auth_password == "" then a.password else e.auth_password)
          else e.auth_password)
        ≡ (if e.auth_password == "" then a.password else e.auth_password)
    passwords = ground arith

-- The environment sets the same again on what it set before, whatever secret would be drawn.
pub load_auth_again :
    (e : EnvVars) (random random' : String) (c : Config)
    → (random == "") ≡ false
    → load_auth_config_from_env e random' (load_auth_config_from_env e random c)
      ≡ load_auth_config_from_env e random c
unfolding load_auth_config_from_env
load_auth_again e random random' c h = elim (Bool-cases (is_any_set e)) [
  | inl s ↦
      let once = three_steps e random (auth_or_new c.auth_config) in
      let again : three_steps e random' once ≡ once =
        steps_lem e random' once
        ∙ ap (set_all e random') (steps_lem e random (auth_or_new c.auth_config))
        ∙ set_all_again e random random' (auth_or_new c.auth_config) h
        ∙ sym (steps_lem e random (auth_or_new c.auth_config)) in
      rw s (ap (λ a. record c { auth_config = some a }) again)
  | inr s ↦ rw s refl
]
