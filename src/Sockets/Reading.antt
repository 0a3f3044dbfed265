-- ===== src/Sockets/Reading.antt =====
-- serve/socket/socket.go: readClientMessage, and RawMessage.ToMessage of api/room/room.go.
use page_spy_api.Base.{Bool, true, false, ◌⊎◌, inl, inr, Option, none, some, ◌==◌, if◌then◌else◌}
use page_spy_api.Base.Text.{concat}
use page_spy_api.Failure.{
  GoError, wrapped, error_text, Outcome, ok, err, panic, text, new_room_close_error,
  new_client_error,
}
use page_spy_api.Address.{Address}
use page_spy_api.Message.{
  Info, Message, RawMessage, Content, update_room_info_content, ping_type, update_room_info_type,
  new_message_content, is_public_message_type, get_pong,
}
use page_spy_api.World.{Env}
use page_spy_api.World.Action.{Action, Done, ◌>>=◌, pure, lift, halt, fail, attempt}
use page_spy_api.LocalRoom.Fields.{id_of}
use page_spy_api.RemoteRoom.{this_remote, client_send}
use page_spy_api.Rooms.{is_close}
use page_spy_api.Cluster.{Response, remote_update}
use page_spy_api.Sockets.{
  Connected, Peer, in_cluster, write_websocket_error, write_data_ignore_error, at_end,
}

abbrev address_of : Option Info → Outcome (Option Address)
address_of none = panic
address_of (some i) = ok i.address

-- RawMessage.ToMessage
abbrev pub decoded : RawMessage → GoError ⊎ Content → Outcome Message
decoded raw (inl e) = err (wrapped (concat "Raw message to message error " (error_text e)) e)
decoded raw (inr c) = ok (record {
  type = raw.type;
  created_at = raw.created_at;
  request_id = raw.request_id;
  content = c;
})

unfoldable pub to_message : Env → RawMessage → Outcome Message
to_message env raw = decoded raw (env.unmarshal raw.content (new_message_content raw.type))

-- res.Room.Info
abbrev info_of : Response → Outcome Info
info_of res = elim res.room [ none ↦ panic | some i ↦ ok i ]

module _ (peer : Peer) where
  -- room.IsClose()
  unfoldable pub room_is_close : Action Connected Bool
  room_is_close = at_end peer (λ w. (ok (is_close peer.client w), w))

  -- room.GetRoomAddress()
  unfoldable pub get_room_address : Action Connected (Option Address)
  unfolding this_remote ◌>>=◌
  get_room_address = do r ← at_end peer (this_remote peer.client); lift (address_of r.rpc_info)

  -- An error that a call returned is written, and is not returned.
  unfoldable pub tell_error : Option GoError → Action Connected Done
  unfolding write_websocket_error
  tell_error none = pure tt
  tell_error (some e) = write_websocket_error peer e

  -- What UpdateRoomOption returned
  unfoldable pub answer_update : Message → Outcome Info → Action Connected Done
  unfolding write_data_ignore_error write_websocket_error
  answer_update msg (ok info) =
      write_data_ignore_error peer (record msg { content = update_room_info_content (some info) })
  answer_update msg (err e) = write_websocket_error peer e
  answer_update msg panic = halt

  -- The call of UpdateRoomOption, with its error as a value
  unfoldable pub call_update : Info → Action Connected (Outcome Info)
  unfolding in_cluster remote_update ◌>>=◌
  call_update info s =
      let (r, t) =
        in_cluster ((remote_update peer.env peer.self peer.now info) >>= λ res. lift (info_of res))
          s in
      (ok r, t)

  -- The case of UpdateRoomInfoType; the type assertion panics on another content.
  unfoldable pub update_room : Message → Content → Action Connected Done
  unfolding get_room_address write_websocket_error call_update answer_update ◌>>=◌
  update_room msg (update_room_info_content none) =
      write_websocket_error peer (text "update room info content info is nil")
  update_room msg (update_room_info_content (some info)) = do
    a ← get_room_address
    r ← call_update (record info { address = a })
    answer_update msg r
  update_room msg _ = halt

  -- The default case: the message goes to the room.
  unfoldable pub send_to_room : Message → Action Connected Done
  unfolding client_send tell_error ◌>>=◌
  send_to_room msg = do
    failed ← attempt (at_end peer (client_send (peer.env peer.self) peer.now peer.client msg))
    tell_error failed

  -- readClientMessage, on a message of a public type
  unfoldable pub serve_public : Message → Action Connected Done
  unfolding update_room send_to_room write_data_ignore_error
  serve_public msg =
      if msg.type == update_room_info_type
      then update_room msg msg.content
      else if msg.type == ping_type
      then write_data_ignore_error peer (get_pong peer.now msg)
      else send_to_room msg

  -- readClientMessage, when the message was decoded
  unfoldable pub serve_message : Outcome Message → Action Connected Done
  unfolding serve_public write_websocket_error
  serve_message (err e) =
      write_websocket_error peer
        (new_client_error (concat "message transform failed, " (error_text e)))
  serve_message panic = halt
  serve_message (ok msg) =
      if is_public_message_type msg.type
      then serve_public msg
      else write_websocket_error peer (
          new_client_error
            (concat "message type " (concat msg.type " is not supported to be sent by frontend")))

  -- readClientMessage, with what ReadJSON of the socket returned
  unfoldable pub serve_read : Outcome RawMessage → Action Connected Done
  unfolding serve_message to_message
  serve_read (err e) =
      fail (new_room_close_error (concat "read message websocket error " (error_text e)))
  serve_read panic = halt
  serve_read (ok raw) = serve_message (to_message (peer.env peer.self) raw)

  unfoldable pub refuse_closed : Bool → Outcome RawMessage → Action Connected Done
  unfolding serve_read get_room_address ◌>>=◌
  refuse_closed true incoming = do
    a ← get_room_address
    id ← lift (id_of a)
    fail (new_room_close_error (concat "room " (concat id " is already close")))
  refuse_closed false incoming = serve_read incoming

  unfoldable pub read_client_message : Outcome RawMessage → Action Connected Done
  unfolding room_is_close refuse_closed ◌>>=◌
  read_client_message incoming = do closed ← room_is_close; refuse_closed closed incoming
