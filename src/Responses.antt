-- ===== src/Responses.antt =====
-- serve/common/api.go: the body of an HTTP response; and the status that writeResponse of
-- serve/socket/socket.go gives it.
use page_spy_api.Base.{ℕ, String, Bool, true, false, List, ◌==◌, if◌then◌else◌}
use page_spy_api.Failure.{GoError, room_error, error_text}
use page_spy_api.Message.{Info}
use page_spy_api.Storage.{LogFile, LogGroupFile}
use page_spy_api.Data.{LogData, LogGroupResult, log_key, group_key}
use page_spy_api.Pages.{Page}

-- What the field Data holds, a constructor for each use.
pub data Payload : Type 0 where
  nothing : Payload
  need_password_setup : Payload
  truth : Payload
  one_room : Info → Payload
  rooms : List Info → Payload
  session : String → ℕ → Payload
  stored : LogFile → Payload
  stored_in_group : LogGroupFile → Payload
  some_logs : List LogData → Payload
  counts : List LogGroupResult → Payload
  log_page : Page log_key → Payload
  group_page : Page group_key → Payload

pub record Response : Type 0 where
  pub code : String
  pub data_ : Payload
  pub success : Bool
  pub message : String

abbrev error_code : GoError → String
error_code (room_error e) = e.code
error_code _ = "error"

unfoldable pub new_error_response : GoError → Response
new_error_response e = record {
  code = error_code e;
  data_ = nothing;
  success = false;
  message = error_text e;
}

unfoldable pub new_error_response_with_code : String → String → Response
new_error_response_with_code message code = record {
  code = code;
  data_ = if code == "PASSWORD_REQUIRED" then need_password_setup else nothing;
  success = false;
  message = message;
}

unfoldable pub new_success_response : Payload → Response
new_success_response d = record { code = "success"; data_ = d; success = true; message = "" }

-- The status and the body of a reply
pub record HttpReply : Type 0 where
  pub status : ℕ
  pub body : Response

-- writeResponse
abbrev pub write_response : Response → HttpReply
write_response r = record { status = if r.success then 200 else 400; body = r }
