-- ===== src/Message.antt =====
-- api/room/room.go: messages, their contents, connections and the information of a room.
-- Pointers that JSON may leave nil are options. Times are numbers of milliseconds.
pub mod Kinds
use page_spy_api.Base.{
  ℕ, String, Bool, true, false, ◌||◌, Option, none, some, List, [], ◌∷◌, ◌==◌, if◌then◌else◌,
}
use page_spy_api.Base.Dict.{Dict}
use page_spy_api.Address.{Address}

abbrev pub broadcast_type : String
broadcast_type = "broadcast"

abbrev pub connect_type : String
connect_type = "connect"

abbrev pub start_type : String
start_type = "start"

abbrev pub close_type : String
close_type = "close"

abbrev pub ping_type : String
ping_type = "ping"

abbrev pub pong_type : String
pong_type = "pong"

abbrev pub update_room_info_type : String
update_room_info_type = "updateRoomInfo"

abbrev pub message_type : String
message_type = "message"

abbrev pub join_type : String
join_type = "join"

abbrev pub error_type : String
error_type = "error"

abbrev pub leave_type : String
leave_type = "leave"

abbrev pub unknown_type : String
unknown_type = "unknown"

pub record Connection : Type 0 where
  pub address : Option Address
  pub created_at : ℕ
  pub user_id : String
  pub name : String

-- Info with its BasicInfo.
pub record Info : Type 0 where
  pub name : String
  pub group : String
  pub tags : Dict String
  pub address : Option Address
  pub secret : String
  pub use_secret : Bool
  pub created_at : ℕ
  pub active_at : ℕ
  pub connections : List Connection

abbrev non_empty : String → String → String
non_empty new old = if new == "" then old else new

abbrev non_empty_tags : Dict String → Dict String → Dict String
non_empty_tags [] old = old
non_empty_tags (t ∷ ts) old = t ∷ ts

-- i.Update(info)
unfoldable pub update : Info → Info → Info
update i info = record i {
  name = non_empty info.name i.name;
  group = non_empty info.group i.group;
  tags = non_empty_tags info.tags i.tags;
}

unfoldable pub new_room_info :
    ℕ → String → String → Bool → Dict String → String → Option Address → Info
new_room_info now name secret use_secret tags group address = record {
  name = name;
  group = group;
  tags = tags;
  address = address;
  secret = secret;
  use_secret = use_secret;
  created_at = now;
  active_at = now;
  connections = [];
}

pub record MessageMessageContent : Type 0 where
  pub data_ : String
  pub from : Option Connection
  pub to : Option Connection

pub record BroadcastMessageContent : Type 0 where
  pub data_ : String
  pub from : Option Connection
  pub include_self : Bool

pub record StartOrCloseMessageContent : Type 0 where
  pub room_address : Address
  pub reason : String

pub record ErrorMessageContent : Type 0 where
  pub message : String
  pub code : String

pub record ConnectMessageContent : Type 0 where
  pub self_connection : Option Connection
  pub room_connections : List Connection

-- What the `interface{}` field Content holds, a constructor for each dynamic type. The content of
-- an unknown type is any JSON text, and a pong's is the empty map.
pub data Content : Type 0 where
  message_content : MessageMessageContent → Content
  broadcast_content : BroadcastMessageContent → Content
  ping_content : Address → Content
  update_room_info_content : Option Info → Content
  start_or_close_content : StartOrCloseMessageContent → Content
  error_content : ErrorMessageContent → Content
  join_or_leave_content : Option Connection → Content
  connect_content : ConnectMessageContent → Content
  unknown_content : String → Content
  empty_map : Content

pub record Message : Type 0 where
  pub type : String
  pub created_at : ℕ
  pub request_id : String
  pub content : Content

pub record RawMessage : Type 0 where
  pub type : String
  pub created_at : ℕ
  pub request_id : String
  pub content : String

-- m.GetPong()
unfoldable pub get_pong : ℕ → Message → Message
get_pong now m = record {
  type = pong_type;
  created_at = now;
  request_id = m.request_id;
  content = empty_map;
}

unfoldable pub is_public_message_type : String → Bool
is_public_message_type t =
    t == broadcast_type || (t == update_room_info_type || (t == message_type || t == ping_type))

unfoldable pub not_message_type : String → Bool
not_message_type t =
    if t == broadcast_type || t == message_type
    then false
    else if t == ping_type
    then false
    else if t == close_type || t == start_type
    then false
    else if t == error_type
    then false
    else if t == join_type || t == leave_type
    then false
    else if t == update_room_info_type
    then false
    else if t == unknown_type
    then true
    else true

abbrev zero_address : Address
zero_address = record { id = ""; machine_id = ""; local_id = "" }

-- The zero value that a message of the type is decoded into.
unfoldable pub new_message_content : String → Content
new_message_content t =
    if t == message_type
    then message_content (record { data_ = ""; from = none; to = none })
    else if t == broadcast_type
    then broadcast_content (record { data_ = ""; from = none; include_self = false })
    else if t == ping_type
    then ping_content zero_address
    else if t == update_room_info_type
    then update_room_info_content none
    else if t == close_type || t == start_type
    then start_or_close_content (record { room_address = zero_address; reason = "" })
    else if t == error_type
    then error_content (record { message = ""; code = "" })
    else if t == join_type || t == leave_type
    then join_or_leave_content none
    else unknown_content ""

abbrev new_message : ℕ → String → Content → Message
new_message now t c = record { type = t; created_at = now; request_id = ""; content = c }

unfoldable pub new_ping_message : ℕ → Address → Message
new_ping_message now from = new_message now ping_type (ping_content from)

unfoldable pub new_start_message : ℕ → Address → Message
new_start_message now a =
    new_message now start_type (start_or_close_content (record { room_address = a; reason = "" }))

unfoldable pub new_close_message : ℕ → Address → String → Message
new_close_message now a reason =
    new_message now close_type
      (start_or_close_content (record { room_address = a; reason = reason }))

unfoldable pub new_connect_message : ℕ → Option Connection → List Connection → Message
new_connect_message now self cs =
    new_message now connect_type
      (connect_content (record { self_connection = self; room_connections = cs }))

unfoldable pub new_leave_message : ℕ → Connection → Message
new_leave_message now c = new_message now leave_type (join_or_leave_content (some c))

unfoldable pub new_join_message : ℕ → Connection → Message
new_join_message now c = new_message now join_type (join_or_leave_content (some c))

unfoldable pub new_broadcast_message : ℕ → String → Option Connection → Message
new_broadcast_message now d from =
    new_message now broadcast_type
      (broadcast_content (record { data_ = d; from = from; include_self = false }))

unfoldable pub new_send_message : ℕ → String → Option Connection → Option Connection → Message
new_send_message now d from to =
    new_message now message_type (message_content (record { data_ = d; from = from; to = to }))
