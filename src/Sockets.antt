-- ===== src/Sockets.antt =====
-- serve/socket/socket.go and error.go: the messages that a client sends over its web socket, on an
-- instance of a cluster. What the socket yields and whether it can be written to are parameters.
pub mod Reading
pub mod Screening
pub mod Serving
pub mod DoneTest
pub mod Pings
pub mod Delivery
pub mod Handlers
pub mod Joining
pub mod Secrets
pub mod Tests
use page_spy_api.Base.{
  ℕ, String, Bool, true, false, ◌⊎◌, inl, inr, Option, none, some, List, [], ◌∷◌, ◌++◌, ◌==◌,
  if◌then◌else◌,
}
use page_spy_api.Base.Text.{concat}
use page_spy_api.Failure.{
  RoomError, GoError, room_error, wrapped, error_text, Outcome, ok, err, panic, text, unknown_error,
  new_room_close_error, new_net_work_timeout_error, new_client_error,
}
use page_spy_api.Address.{Address}
use page_spy_api.Message.{
  Info, Message, RawMessage, Content, update_room_info_content, error_content, error_type,
  ping_type, update_room_info_type, new_message_content, is_public_message_type, get_pong,
}
use page_spy_api.World.{Ptr, RemoteRoom, World, Env}
use page_spy_api.World.Action.{Action, Done, ◌>>=◌, ◌>>◌, pure, lift, halt, fail, attempt}
use page_spy_api.LocalRoom.Fields.{id_of}
use page_spy_api.LocalManager.{in_world}
use page_spy_api.RemoteRoom.{this_remote, client_send}
use page_spy_api.Rooms.{is_close}
use page_spy_api.Cluster.{Cluster, Response, on_self, remote_update}

-- The cluster beside the messages that were written to one client's socket.
pub record Connected : Type 0 where
  pub cluster : Cluster
  pub wire : List Message

-- The instance that serves the client, the time, the client's end of its room, and the error of
-- writing a message, if it fails.
pub record Peer : Type 0 where
  pub env : String → Env
  pub self : String
  pub now : ℕ
  pub client : Ptr
  pub write_error : Message → Option GoError

pub in_cluster : {A : Type 0} → Action Cluster A → Action Connected A
in_cluster m s = let (r, c) = m s.cluster in (r, record s { cluster = c })

-- Unwrap
unfoldable pub unwrap : GoError → GoError
unwrap (wrapped s e) = unwrap e
unwrap (room_error e) = room_error e
unwrap (text s) = text s

abbrev error_message : String → String → Message
error_message message code = record {
  type = error_type;
  created_at = 0;
  request_id = "";
  content = error_content (record { message = message; code = code });
}

abbrev pub message_of : GoError → Message
message_of (room_error e) = error_message e.message e.code
message_of e = error_message (error_text e) unknown_error

-- NewErrorMessage
unfoldable pub new_error_message : GoError → Message
unfolding unwrap
new_error_message e = message_of (unwrap e)

abbrev after_write : Option GoError → Message → Action Connected Done
after_write none m s = (ok tt, record s { wire = s.wire ++ m ∷ [] })
after_write (some e) m s = (err e, s)

module _ (peer : Peer) where
  -- WriteData, WriteJSON
  abbrev pub write_json : Message → Action Connected Done
  write_json m = after_write (peer.write_error m) m

  -- writeWebsocketError
  unfoldable pub write_websocket_error : GoError → Action Connected Done
  unfolding new_error_message ◌>>=◌
  write_websocket_error e = do logged ← attempt (write_json (new_error_message e)); pure tt

  abbrev then_tell : Option GoError → Action Connected Done
  unfolding write_websocket_error
  then_tell none = pure tt
  then_tell (some e) = write_websocket_error (new_net_work_timeout_error (error_text e))

  -- WriteDataIgnoreError
  unfoldable pub write_data_ignore_error : Message → Action Connected Done
  unfolding then_tell ◌>>=◌
  write_data_ignore_error m = do failed ← attempt (write_json m); then_tell failed

  -- An action on the client's end of the room
  abbrev pub at_end : {A : Type 0} → Action World A → Action Connected A
  unfolding in_cluster on_self in_world
  at_end m = in_cluster (on_self peer.self (in_world m))
