-- ===== src/Failure.antt =====
-- api/room/error.go and the errors of fmt: what Go's `error` values hold here.
use page_spy_api.Base.{String, Option, none, some, ◌≡◌, ap}
use page_spy_api.Base.Text.{concat}

-- ErrorCode is a string, and a decoded response may hold any.
abbrev pub unknown_error : String
unknown_error = "UnknownError"

abbrev pub room_not_found_error : String
room_not_found_error = "RoomNotFoundError"

abbrev pub room_close_error : String
room_close_error = "RoomCloseError"

abbrev pub net_work_timeout_error : String
net_work_timeout_error = "NetWorkTimeoutError"

abbrev pub message_content_error : String
message_content_error = "MessageContentError"

abbrev pub serve_error : String
serve_error = "ServeError"

abbrev pub client_error : String
client_error = "ClientError"

-- room.Error
pub record RoomError : Type 0 where
  pub code : String
  pub message : String

-- A room.Error, a text of errors.New or fmt.Errorf, or an error that fmt.Errorf wraps by %w (its
-- whole text beside the wrapped one).
pub data GoError : Type 0 where
  room_error : RoomError → GoError
  text : String → GoError
  wrapped : String → GoError → GoError

abbrev pub error_text : GoError → String
error_text (room_error e) = concat "Code: " (concat e.code (concat " Message: " e.message))
error_text (text s) = s
error_text (wrapped s e) = s

abbrev pub new_error : String → RoomError
new_error msg = record { code = unknown_error; message = msg }

abbrev pub new_error_with_code : String → String → RoomError
new_error_with_code msg code = record { code = code; message = msg }

abbrev pub new_room_not_found_error : String → GoError
new_room_not_found_error msg = room_error (new_error_with_code msg room_not_found_error)

abbrev pub new_room_close_error : String → GoError
new_room_close_error msg = room_error (new_error_with_code msg room_close_error)

abbrev pub new_net_work_timeout_error : String → GoError
new_net_work_timeout_error msg = room_error (new_error_with_code msg net_work_timeout_error)

abbrev pub new_client_error : String → GoError
new_client_error msg = room_error (new_error_with_code msg client_error)

-- BasicRpcResponse, its error field alone: what SetError stores and GetError gives back.
unfoldable pub set_error : Option GoError → Option RoomError
set_error none = none
set_error (some (room_error e)) = some e
set_error (some e) = some (new_error (error_text e))

unfoldable pub get_error : Option RoomError → Option GoError
get_error none = none
get_error (some e) = some (room_error e)

-- How a call ends: with a value, with an error, or by a panic.
pub data Outcome {ℓ} (A : Type ℓ) : Type ℓ where
  ok : A → Outcome A
  err : GoError → Outcome A
  panic : Outcome A

abbrev or_else {ℓ} : {A : Type ℓ} → A → Outcome A → A
or_else d (ok a) = a
or_else d _ = d

pub ok-injective {ℓ} : {A : Type ℓ} {a b : A} → ok a ≡ ok b → a ≡ b
ok-injective {a = a} e = ap (or_else a) e
