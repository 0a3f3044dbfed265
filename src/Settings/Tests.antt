-- ===== src/Settings/Tests.antt =====
-- A configuration, and two starts with a password in the environment.
use page_spy_api.Base.{◌*◌, ◌<◌, false, none, some, [], ◌∷◌, ◌≡◌, refl}
use page_spy_api.Base.Dict.{lookup, insert}
use page_spy_api.Base.Number.{atoi}
use page_spy_api.Failure.{Outcome, ok}
use page_spy_api.Storage.{Bytes}
use page_spy_api.Storage.Refinement.{no_faults}
use page_spy_api.Settings.{
  Config, EnvVars, get_max_log_life_time_of_hour, get_max_log_file_size_of_mb, get_max_room_number,
  max_size_of_byte, load_config,
}
use page_spy_api.Settings.Environment.{limits-Positive}
use page_spy_api.Settings.Restart.{load_config-restart}

abbrev blank : Config
blank = record {
  port = "6752";
  debug = false;
  not_allowed_delete_log = false;
  rpc_address = [];
  self_rpc_address = none;
  cors_config = none;
  storage_config = none;
  mysql_url = none;
  max_room_number = 18446744073709551615;
  max_log_file_size_of_mb = 20;
  max_log_life_time_of_hour = 0;
  auth_config = none;
}

limits-Positive_example :
    (0 < get_max_log_life_time_of_hour blank)
    × (get_max_log_life_time_of_hour blank < 9223372036854775808)
    × (0 < get_max_log_file_size_of_mb blank)
    × (get_max_log_file_size_of_mb blank < 9223372036854775808)
    × (0 < get_max_room_number blank)
    × (get_max_room_number blank < 9223372036854775808)
    × (get_max_log_file_size_of_mb blank < 8796093022208
        → max_size_of_byte blank ≡ get_max_log_file_size_of_mb blank * 1048576)
limits-Positive_example = limits-Positive blank

abbrev vars : EnvVars
vars = record { auth_password = "pw"; jwt_secret_var = ""; jwt_expiration_hours = "12" }

abbrev with_password : Config
with_password = record blank {
  auth_config = some (record { password = "pw"; jwt_secret = "r"; token_expiration = 12 });
}

-- The default file stands for the blank configuration, any other for that with the password.
abbrev decode : Bytes → Outcome Config
decode [] = ok blank
decode (x ∷ b) = ok with_password

abbrev encode : Config → Outcome Bytes
encode c = ok (1 ∷ [])

first_start :
    load_config no_faults [] decode encode vars "r" []
    ≡ (ok with_password, ("config.json", 1 ∷ []) ∷ [])
unfolding load_config lookup insert atoi
first_start = refl

load_config-restart_example :
    (load_config no_faults [] decode encode vars "other" (("config.json", 1 ∷ []) ∷ [])).0
    ≡ ok with_password
load_config-restart_example =
    load_config-restart [] decode encode vars "r" "other" [] (("config.json", 1 ∷ []) ∷ [])
      with_password refl first_start (record { text = 1 ∷ []; encodes = refl; decodes = refl })
