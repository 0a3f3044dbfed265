-- ===== src/Rooms.antt =====
-- room/basic_room.go, room/message.go, and the methods of both kinds of room that the emitter calls:
-- `IsClose`, `Listen`, and the `Close` of a remote room, which its `Listen` calls.
-- A send on a channel waits for the deadline of its context only if the channel is full: a message
-- that finds it full is dropped, which stands for a reader that takes nothing until the deadline.
pub mod Frame
pub mod Listening
use page_spy_api.Base.{
  ℕ, String, Bool, true, false, ◌⊎◌, inl, inr, Option, none, some, List, [], ◌∷◌, ◌++◌, ◌==◌, ltb,
  length, if◌then◌else◌,
}
use page_spy_api.Base.Text.{concat}
use page_spy_api.Failure.{GoError, Outcome, ok, err, panic, wrapped, error_text}
use page_spy_api.Status.{close_status, is_status, set_status, new_status_machine}
use page_spy_api.Address.{Address, Package}
use page_spy_api.Message.{Message, Content, Connection, new_message_content, close_type}
use page_spy_api.World.{
  Ptr, BasicRoom, LocalRoom, RemoteRoom, Object, free, local, remote, World, Env, write,
}
use page_spy_api.World.Action.{Action, Done, ◌>>=◌, ◌>>◌, pure, lift, halt, modify}
use page_spy_api.Listeners.{remove_listener}

abbrev pub new_basic_room : BasicRoom
new_basic_room = record { machine = new_status_machine; done = false }

abbrev pub is_closed : BasicRoom → Bool
is_closed b = is_status b.machine close_status

-- basicRoom.close: to close the channel `done` a second time would panic.
unfoldable pub close_basic : BasicRoom → Outcome BasicRoom
close_basic b =
    if is_closed b
    then ok b
    else if b.done
    then panic
    else ok (record { machine = set_status close_status b.machine; done = true })

-- roomMessageToPackage
abbrev pub pack : Message → Option Address → GoError ⊎ String → Outcome Package
pack msg from (inl e) = err (wrapped (concat "room message encode failed, " (error_text e)) e)
pack msg from (inr bs) = ok (record {
  from = from;
  created_at = msg.created_at;
  request_id = msg.request_id;
  routing_key = msg.type;
  content = bs;
})

unfoldable pub room_message_to_package : Env → Message → Option Address → Outcome Package
room_message_to_package env msg from = pack msg from (env.marshal msg.content)

-- packageToRoomMessage
abbrev unpack : Package → GoError ⊎ Content → Outcome Message
unpack pkg (inl e) = err (wrapped (concat "raw message decode failed, " (error_text e)) e)
unpack pkg (inr c) = ok (record {
  type = pkg.routing_key;
  created_at = pkg.created_at;
  request_id = pkg.request_id;
  content = c;
})

unfoldable pub package_to_room_message : Env → Package → Outcome Message
package_to_room_message env pkg =
    unpack pkg (env.unmarshal pkg.content (new_message_content pkg.routing_key))

-- make(chan *room.Message, 2000)
abbrev pub capacity : ℕ
capacity = 2000

-- r.messages <- m, up to the deadline: the channel, and whether the message went in.
unfoldable pub send : Message → List Message → List Message × Bool
send m q = if ltb (length q) capacity then (q ++ m ∷ [], true) else (q, false)

-- remoteRoom.Close
unfoldable pub close_remote : Ptr → RemoteRoom → Action World Done
unfolding close_basic
close_remote p r = do
  basic ← lift (close_basic r.basic)
  modify (λ w. record w { heap = write p (remote (record r { basic = basic })) w.heap })
  remove_listener r.connection.address p

-- What remoteRoom.Listen does once the message was sent to the channel, or was not.
after_send : Ptr → RemoteRoom → Message → List Message × Bool → Action World Done
after_send p r m (q, false) = pure tt
after_send p r m (q, true) = do
  modify (λ w. record w { heap = write p (remote (record r { messages = q })) w.heap })
  if m.type == close_type then close_remote p (record r { messages = q }) else pure tt

listen_remote : Ptr → RemoteRoom → Outcome Message → Action World Done
unfolding after_send send
listen_remote p r (ok m) = after_send p r m (send m r.messages)
listen_remote p r (err e) = pure tt
listen_remote p r panic = halt

listen_local : Ptr → LocalRoom → Outcome Message → Action World Done
unfolding send
listen_local p r (ok m) = modify (λ w. record w {
  heap = write p (local (record r { messages = (send m r.messages).0 })) w.heap;
})
listen_local p r (err e) = pure tt
listen_local p r panic = halt

listen_object : Env → Ptr → Package → Object → Action World Done
unfolding listen_remote listen_local package_to_room_message
listen_object env p pkg free = pure tt
listen_object env p pkg (local r) = listen_local p r (package_to_room_message env pkg)
listen_object env p pkg (remote r) = listen_remote p r (package_to_room_message env pkg)

-- l.Listen(ctx, pkg)
unfoldable pub listen : Env → Package → Ptr → Action World Done
unfolding listen_object
listen env pkg p w = listen_object env p pkg (w.heap p) w

abbrev closed_object : Object → Bool
closed_object free = true
closed_object (local r) = is_closed r.basic
closed_object (remote r) = is_closed r.basic

-- l.IsClose(); no listener points to a free cell.
abbrev pub is_close : Ptr → World → Bool
is_close p w = closed_object (w.heap p)
