-- ===== src/Settings.antt =====
-- config/config.go and config/load.go: the configuration, its defaults, and what the environment
-- sets. An int is its 64 bits. JSON and the random bytes are parameters.
pub mod Environment
pub mod Restart
pub mod Tests
use page_spy_api.Base.{
  ℕ, ◌*◌, ◌%◌, String, Bool, true, false, not, ◌&&◌, ◌||◌, Option, none, some, List, [], ◌==◌,
  if◌then◌else◌,
}
use page_spy_api.Base.Int.{at_most_zero}
use page_spy_api.Base.Number.{atoi}
use page_spy_api.Base.Text.{concat}
use page_spy_api.Failure.{GoError, Outcome, ok, err, panic, error_text, wrapped}
use page_spy_api.World.Action.{Action, Done, ◌>>=◌, ◌>>◌, pure, lift, fail, attempt}
use page_spy_api.Machines.{MachineAddress}
use page_spy_api.Storage.{Bytes}
use page_spy_api.Storage.Disk.{
  Disk, Faults, Stat, found, not_exist, failed, os_stat, os_create, os_write, os_open,
}

-- CorsConfig
pub record CorsConfig : Type 0 where
  pub allow_origins : List String
  pub allow_methods : List String
  pub allow_headers : List String
  pub expose_headers : List String

-- StorageConfig
pub record StorageConfig : Type 0 where
  pub log_dir_name : String
  pub base_dir : String
  pub key_id : String
  pub secret : String
  pub region : String
  pub endpoint : String
  pub bucket : String
  pub s3_force_path_style : Bool

-- AuthConfig
pub record AuthConfig : Type 0 where
  pub password : String
  pub jwt_secret : String
  pub token_expiration : ℕ

-- Config; of DatabaseConfig, its only field.
pub record Config : Type 0 where
  pub port : String
  pub debug : Bool
  pub not_allowed_delete_log : Bool
  pub rpc_address : List MachineAddress
  pub self_rpc_address : Option MachineAddress
  pub cors_config : Option CorsConfig
  pub storage_config : Option StorageConfig
  pub mysql_url : Option String
  pub max_room_number : ℕ
  pub max_log_file_size_of_mb : ℕ
  pub max_log_life_time_of_hour : ℕ
  pub auth_config : Option AuthConfig

abbrev pub dir_of : StorageConfig → String
dir_of s = if s.log_dir_name == "" then "log" else s.log_dir_name

-- GetLogDir of a StorageConfig, and of a Config
unfoldable pub get_log_dir : Config → String
get_log_dir c = elim c.storage_config [ none ↦ "log" | some s ↦ dir_of s ]

unfoldable pub is_remote_storage : Config → Bool
is_remote_storage c = elim c.storage_config [ none ↦ false | some s ↦ true ]

-- GetMaxLogLifeTimeOfHour
unfoldable pub get_max_log_life_time_of_hour : Config → ℕ
get_max_log_life_time_of_hour c =
    if at_most_zero c.max_log_life_time_of_hour then 30 * 24 else c.max_log_life_time_of_hour

-- GetMaxLogFileSizeOfMB
unfoldable pub get_max_log_file_size_of_mb : Config → ℕ
get_max_log_file_size_of_mb c =
    if at_most_zero c.max_log_file_size_of_mb then 10 * 1024 else c.max_log_file_size_of_mb

-- GetMaxRoomNumber
unfoldable pub get_max_room_number : Config → ℕ
get_max_room_number c = if at_most_zero c.max_room_number then 500 else c.max_room_number

-- NewCore's maxSizeOfByte
unfoldable pub max_size_of_byte : Config → ℕ
unfolding get_max_log_file_size_of_mb
max_size_of_byte c = (get_max_log_file_size_of_mb c * 1024 * 1024) % 18446744073709551616

-- AUTH_PASSWORD, JWT_SECRET and JWT_EXPIRATION_HOURS, empty if they are not set
pub record EnvVars : Type 0 where
  pub auth_password : String
  pub jwt_secret_var : String
  pub jwt_expiration_hours : String

abbrev pub auth_or_new : Option AuthConfig → AuthConfig
auth_or_new none = record { password = ""; jwt_secret = ""; token_expiration = 24 }
auth_or_new (some a) = a

abbrev pub set_password : EnvVars → AuthConfig → AuthConfig
set_password e a = if e.auth_password == "" then a else record a { password = e.auth_password }

abbrev pub set_secret : EnvVars → String → AuthConfig → AuthConfig
set_secret e random a =
    if not (e.jwt_secret_var == "")
    then record a { jwt_secret = e.jwt_secret_var }
    else if not (e.auth_password == "") && a.jwt_secret == ""
    then record a { jwt_secret = random }
    else a

abbrev pub hours_or : ℕ → Option ℕ → ℕ
hours_or old none = old
hours_or old (some n) = if at_most_zero n then old else n

abbrev pub set_expiration : EnvVars → AuthConfig → AuthConfig
set_expiration e a =
    if e.jwt_expiration_hours == ""
    then a
    else record a { token_expiration = hours_or a.token_expiration (atoi e.jwt_expiration_hours) }

abbrev pub is_any_set : EnvVars → Bool
is_any_set e =
    not (e.auth_password == "")
    || (not (e.jwt_secret_var == "") || not (e.jwt_expiration_hours == ""))

-- loadAuthConfigFromEnv, but for Save, with the secret that would be generated
unfoldable pub load_auth_config_from_env : EnvVars → String → Config → Config
load_auth_config_from_env e random c =
    if is_any_set e
    then record c {
      auth_config =
          some
            (set_expiration e (set_secret e random (set_password e (auth_or_new c.auth_config))));
    }
    else c

abbrev pub config_file : String
config_file = "config.json"

abbrev context : String → GoError → GoError
context s e = wrapped (concat s (concat " " (error_text e))) e

module _ (f : Faults) (default : Bytes) (decode : Bytes → Outcome Config)
    (encode : Config → Outcome Bytes) where
  abbrev written : Option GoError × Disk → Outcome Done × Disk
  written (none, d) = (ok tt, d)
  written (some e, d) = (err (context "write config file config.json error" e), d)

  abbrev created : Option GoError × Disk → Outcome Done × Disk
  created (none, d) = written (os_write f config_file default d)
  created (some e, d) = (err (context "create config file config.json error" e), d)

  -- checkLocalConfigFile
  unfoldable pub check_local_config_file : Action Disk Done
  check_local_config_file d = elim (os_stat f config_file d) [
    | not_exist ↦ created (os_create f config_file d)
    | found n ↦ (ok tt, d)
    | failed e ↦ (ok tt, d)
  ]

  abbrev decoded : Outcome Config → Outcome Config
  decoded (err e) = err (context "decode config.json error" e)
  decoded r = r

  abbrev opened : Outcome Bytes → Outcome Config
  opened (ok b) = decoded (decode b)
  opened (err e) = err (context "read config.json error" e)
  opened panic = panic

  -- loadLocalConfigFile
  unfoldable pub load_local_config_file : Action Disk Config
  load_local_config_file d = (opened (os_open f config_file d), d)

  abbrev pub written_file : Bytes → Option GoError × Disk → Disk
  written_file b (none, d) = (os_write f config_file b d).1
  written_file b (some e, d) = d

  -- Save, by os.WriteFile, which creates or empties the file and writes it; its error is dropped.
  unfoldable pub save : Config → Disk → Disk
  save c d = elim (encode c) [
    | ok b ↦ written_file b (os_create f config_file d)
    | err e ↦ d
    | panic ↦ d
  ]

  unfoldable pub save_if : Bool → Config → Action Disk Config
  unfolding save
  save_if true c d = (ok c, save c d)
  save_if false c d = (ok c, d)

  -- LoadConfig
  unfoldable pub load_config : EnvVars → String → Action Disk Config
  unfolding check_local_config_file load_local_config_file load_auth_config_from_env save_if ◌>>=◌
  load_config e random = do
    check_local_config_file
    c ← load_local_config_file
    save_if (is_any_set e) (load_auth_config_from_env e random c)
