-- ===== src/Sockets/Handlers.antt =====
-- serve/socket/socket.go: the HTTP handlers of WebSocket. A request's query, its body, the drawn
-- uuid and the upgrade to a web socket are given.
use page_spy_api.Base.{
  ℕ, String, Bool, false, Option, none, some, List, [], ◌∷◌, ◌==◌, if◌then◌else◌,
}
use page_spy_api.Base.Dict.{Dict, insert}
use page_spy_api.Base.Text.{concat}
use page_spy_api.Failure.{GoError, error_text, Outcome, ok, err, panic, text}
use page_spy_api.Address.{Address, new_address_from_id, generator_address}
use page_spy_api.Message.{Info, new_room_info}
use page_spy_api.World.{Env}
use page_spy_api.World.Action.{Action, ◌>>=◌, ◌>>◌, pure, lift}
use page_spy_api.LocalManager
use page_spy_api.Cluster.{Cluster, on_self, remote_get}
use page_spy_api.Cluster.Listing.{list_rooms}
use page_spy_api.Responses.{
  HttpReply, write_response, new_error_response, new_success_response, nothing, one_room, rooms,
}

-- An error that is answered
abbrev pub answer_error : GoError → HttpReply
answer_error e = write_response (new_error_response e)

abbrev pub answered : Outcome HttpReply → Outcome HttpReply
answered (err e) = ok (answer_error e)
answered r = r

-- A handler that answers the error of what it does
abbrev pub answering : Action Cluster HttpReply → Action Cluster HttpReply
answering m c = let (r, t) = m c in (answered r, t)

abbrev first_values : Dict (List String) → Dict String → Dict String
first_values [] m = m
first_values ((k, []) ∷ q) m = first_values q m
first_values ((k, v ∷ vs) ∷ q) m = first_values q (insert k v m)

-- getTags
unfoldable pub get_tags : Dict (List String) → Dict String
get_tags query = first_values query []

-- RoomOptions
pub record RoomOptions : Type 0 where
  pub secret : String
  pub use_secret : Bool

-- The body of CreateRoom's request: it cannot be read, is empty, is no JSON, or holds the options.
pub data Body : Type 0 where
  unread : Body
  no_body : Body
  no_json : GoError → Body
  options : RoomOptions → Body

unfoldable pub read_body : Body → Outcome RoomOptions
read_body unread = err (text "name or group missing")
read_body no_body = ok (record { secret = ""; use_secret = false })
read_body (no_json e) = err (text (concat "parse body error " (error_text e)))
read_body (options o) = ok o

abbrev pub blank_info : Address → String → String → Info
blank_info a group secret = record {
  name = "";
  group = group;
  tags = [];
  address = some a;
  secret = secret;
  use_secret = false;
  created_at = 0;
  active_at = 0;
  connections = [];
}

-- room.GetInfo() of the room of a response, which may be a nil pointer
abbrev pub info_of : Option Info → Outcome Info
info_of none = panic
info_of (some i) = ok i

abbrev pub compare_secret : String → Info → HttpReply
compare_secret secret i =
    if secret == i.secret
    then write_response (new_success_response nothing)
    else answer_error (text "wrong secret")

module _ (env : String → Env) (self : String) (now : ℕ) where
  -- ListRooms
  unfoldable pub handle_list_rooms : (ℕ → ℕ) → Dict (List String) → Action Cluster HttpReply
  unfolding list_rooms get_tags ◌>>=◌
  handle_list_rooms to_lower query = answering (do
    found ← list_rooms to_lower (get_tags query)
    pure (write_response (new_success_response (rooms found))))

  -- CreateRoom
  unfoldable pub handle_create_room :
      String → String → String → Dict (List String) → Body → Action Cluster HttpReply
  unfolding read_body on_self get_tags generator_address new_room_info ◌>>=◌
  handle_create_room uuid name group query body = answering (do
    o ← lift (read_body body)
    let opt =
        new_room_info now name o.secret o.use_secret (get_tags query) group
          (some (generator_address self uuid))
    on_self self (LocalManager.create_room (env self) now opt)
    pure (write_response (new_success_response (one_room opt))))

  -- CheckRoomSecret, of a secret that is not empty
  unfoldable pub check_secret : String → String → Action Cluster HttpReply
  unfolding new_address_from_id remote_get ◌>>=◌
  check_secret secret id = do
    a ← lift (new_address_from_id id)
    res ← remote_get env self now (blank_info a "" "")
    i ← lift (info_of res.room)
    pure (compare_secret secret i)

  -- CheckRoomSecret
  unfoldable pub handle_check_room_secret : String → String → Action Cluster HttpReply
  unfolding check_secret
  handle_check_room_secret secret id =
      if secret == ""
      then pure (answer_error (text "'secret' cannot be empty"))
      else answering (check_secret secret id)
