-- ===== src/Sockets/Serving.antt =====
-- serve/socket/socket.go: onRoomMessage, and serveRoom with its two loops. The goroutine that
-- writes and the loop that reads are sequences of their own; what a select finds ready is a parameter.
use page_spy_api.Base.{String, Bool, true, false, Option, none, some, List, [], ◌∷◌}
use page_spy_api.Base.Text.{concat}
use page_spy_api.Failure.{
  GoError, Outcome, ok, err, panic, new_room_close_error, new_net_work_timeout_error,
}
use page_spy_api.Message.{Connection, Info, Message, RawMessage}
use page_spy_api.World.{RemoteRoom}
use page_spy_api.World.Action.{Action, Done, ◌>>=◌, ◌>>◌, pure, lift, fail, attempt}
use page_spy_api.LocalRoom.Fields.{id_of}
use page_spy_api.RemoteRoom.{this_remote, set_remote, close_client}
use page_spy_api.Cluster.{remote_leave}
use page_spy_api.Sockets.{
  Connected, Peer, in_cluster, write_websocket_error, write_data_ignore_error, at_end,
}
use page_spy_api.Sockets.Reading.{get_room_address, read_client_message}

-- What the select of onRoomMessage takes.
pub data Ready : Type 0 where
  a_message : Ready
  room_done : Ready
  context_done : Ready

-- What a loop of serveRoom finds at its select: that the context is cancelled, or else, with the
-- room open, what the socket yields.
pub data Turn : Type 0 where
  cancelled : Turn
  yields : Outcome RawMessage → Turn

-- What a turn of the goroutine that writes finds: that the context is cancelled, or, at the select of
-- onRoomMessage, what is ready there.
pub data WriteTurn : Type 0 where
  stops : WriteTurn
  takes : Ready → WriteTurn

module _ (peer : Peer) where
  -- msg := <-room.OnMessage(); from an empty channel nothing is received.
  unfoldable pub receive : RemoteRoom → List Message → Action Connected Done
  unfolding set_remote write_data_ignore_error ◌>>=◌
  receive r [] = pure tt
  receive r (m ∷ ms) = do
    at_end peer (set_remote peer.client (record r { messages = ms }))
    write_data_ignore_error peer m

  unfoldable pub receive_next : Action Connected Done
  unfolding receive this_remote ◌>>=◌
  receive_next = do r ← at_end peer (this_remote peer.client); receive r r.messages

  -- The id of the room's address, for an error's text
  unfoldable pub room_id : Action Connected String
  unfolding get_room_address ◌>>=◌
  room_id = do a ← get_room_address peer; lift (id_of a)

  unfoldable pub on_room_message : Ready → Action Connected Done
  unfolding receive_next room_id write_websocket_error ◌>>=◌
  on_room_message a_message = receive_next
  on_room_message room_done = do
    id ← room_id
    fail (new_room_close_error (concat "room " (concat id " left")))
  on_room_message context_done = do
    id ← room_id
    write_websocket_error peer
        (new_net_work_timeout_error (concat "room " (concat id " context cancel")))

  -- Whether the channel room.Done() is closed
  unfoldable pub is_done : Action Connected Bool
  unfolding this_remote ◌>>=◌
  is_done = do r ← at_end peer (this_remote peer.client); pure r.basic.done

  -- The end of a turn of the goroutine that writes: an error ends it and is written.
  unfoldable pub after_message : Option GoError → Action Connected Done → Action Connected Done
  unfolding write_websocket_error
  after_message none again = again
  after_message (some e) again = write_websocket_error peer e

  -- The goroutine that writes, over its turns: it returns from one that finds the context cancelled
  -- or the room's channel done, and the turns behind the last one are not considered.
  unfoldable pub write_loop : List WriteTurn → Action Connected Done
  unfolding is_done on_room_message after_message ◌>>=◌
  write_loop [] = pure tt
  write_loop (stops ∷ turns) = pure tt
  write_loop (takes r ∷ turns) = do
    over ← is_done
    let again = write_loop turns
    elim over [
      | true ↦ pure tt
      | false ↦ do failed ← attempt (on_room_message r); after_message failed again
    ]

  -- The end of a turn of the reading loop, and its code
  unfoldable pub after_read : Option GoError → Action Connected String → Action Connected String
  unfolding write_websocket_error ◌>>=◌
  after_read none again = again
  after_read (some e) again = do write_websocket_error peer e; pure "read_message_close"

  -- The loop that reads, over its turns; the code that it ends with. Behind the last turn the socket
  -- is closed.
  unfoldable pub read_loop : GoError → List Turn → Action Connected String
  unfolding is_done read_client_message after_read ◌>>=◌
  read_loop closed [] = do
    failed ← attempt (read_client_message peer (err closed))
    after_read failed (pure "read_message_close")
  read_loop closed (cancelled ∷ turns) = pure "success"
  read_loop closed (yields incoming ∷ turns) = do
    over ← is_done
    let again = read_loop closed turns
    elim over [
      | true ↦ pure "room_close"
      | false ↦ do failed ← attempt (read_client_message peer incoming); after_read failed again
    ]

  -- What serveRoom defers: to leave the room, whose error is logged, and to close the client's end.
  unfoldable pub leave_and_close : Info → Connection → String → Action Connected Done
  unfolding in_cluster remote_leave close_client ◌>>=◌
  leave_and_close opt connection code = do
    logged ←
        attempt (in_cluster (remote_leave peer.env peer.self peer.now opt connection >> pure tt))
    at_end peer (close_client peer.client code)

  -- serveRoom: the reading loop, which a panic leaves too, and then what is deferred
  unfoldable pub serve_room : Info → Connection → GoError → List Turn → Action Connected Done
  unfolding read_loop leave_and_close
  serve_room opt connection closed turns s = let (r, t) = read_loop closed turns s in after_loop r t
    where
      after_loop : Outcome String → Action Connected Done
      after_loop (ok code) t = leave_and_close opt connection code t
      after_loop (err e) t = leave_and_close opt connection "success" t
      after_loop panic t = let (q, u) = leave_and_close opt connection "success" t in (panic, u)
