-- ===== src/RemoteRoom.antt =====
-- room/remote_room.go: a client's end of a room. Its Listen, and the Close that Listen calls, are
-- in Rooms, since the emitter calls them.
pub mod Sender
pub mod Lifetime
pub mod Tests
use page_spy_api.Base.{
  ℕ, ◌-◌, ◌*◌, String, Bool, true, false, ◌||◌, Option, none, some, [], ◌==◌, ltb, if◌then◌else◌,
}
use page_spy_api.Base.Text.{concat}
use page_spy_api.Failure.{Outcome, ok, err, panic, text}
use page_spy_api.Address.{Address, Package}
use page_spy_api.Message.{
  Connection, Info, Content, message_content, broadcast_content, MessageMessageContent, Message,
  message_type, broadcast_type, ping_type, not_message_type, new_ping_message,
}
use page_spy_api.World.{Ptr, Object, local, remote, RemoteRoom, World, Env, write}
use page_spy_api.World.Action.{Action, Done, ◌>>=◌, ◌>>◌, pure, lift, fail}
use page_spy_api.Listeners
use page_spy_api.Rooms.{new_basic_room, is_closed, room_message_to_package, close_remote}
use page_spy_api.Emitter.{emit}
use page_spy_api.LocalRoom.Fields.{id_of, deref}

-- NewRemoteRoom; the logger reads both addresses.
unfoldable pub new_remote_room :
    {S : Type 0} → ℕ → Connection → Info → Option Info → Action S RemoteRoom
unfolding ◌>>=◌
new_remote_room now connection opt rpc_info = do
  lift (id_of connection.address)
  lift (id_of opt.address)
  pure (record {
    basic = new_basic_room;
    connection = connection;
    opt = opt;
    rpc_info = rpc_info;
    messages = [];
    created_at = now;
    active_at = now;
  })

abbrev as_remote : Object → Outcome RemoteRoom
as_remote (remote r) = ok r
as_remote _ = panic

-- The fields behind the receiver.
unfoldable pub this_remote : Ptr → Action World RemoteRoom
this_remote p w = (as_remote (w.heap p), w)

unfoldable pub set_remote : Ptr → RemoteRoom → Action World Done
set_remote p r w = (ok tt, record w { heap = write p (remote r) w.heap })

-- Start
unfoldable pub start_remote : Ptr → Action World Done
unfolding this_remote
start_remote p = do r ← this_remote p; Listeners.listen r.connection.address p

-- A message of the client, packed with its address, is emitted.
unfoldable pub emit_as : Env → RemoteRoom → Message → Option Address → Action World Done
emit_as env r msg to = do
  pkg ← lift (room_message_to_package env msg r.connection.address)
  emit env to pkg

message_to : Env → RemoteRoom → Message → MessageMessageContent → Action World Done
unfolding emit_as
message_to env r msg content = elim content.to [
  | none ↦ fail (text "unicast message's field 'to' is empty")
  | some to ↦
      emit_as env r
        (record msg { content = message_content (record content { from = some r.connection }) })
        to.address
]

-- message
client_message : Env → RemoteRoom → Message → Content → Action World Done
unfolding message_to
client_message env r msg (message_content content) = message_to env r msg content
client_message env r msg _ = fail (text "message content is invalid")

-- broadcast
client_broadcast : Env → RemoteRoom → Message → Content → Action World Done
unfolding emit_as
client_broadcast env r msg (broadcast_content content) =
    emit_as env r
      (record msg { content = broadcast_content (record content { from = some r.connection }) })
      r.opt.address
client_broadcast env r msg _ = fail (text "message content is invalid")

-- ping
client_ping : Env → ℕ → RemoteRoom → Action World Done
unfolding emit_as
client_ping env now r = do
  a ← lift (deref r.connection.address)
  emit_as env r (new_ping_message now a) r.opt.address

client_known : Env → ℕ → RemoteRoom → Message → Action World Done
unfolding client_message client_broadcast client_ping
client_known env now r msg =
    if msg.type == message_type
    then client_message env r msg msg.content
    else if msg.type == broadcast_type
    then client_broadcast env r msg msg.content
    else if msg.type == ping_type
    then client_ping env now r
    else fail (
        text
          (concat "message type " (concat msg.type " is not supported to be sent by normal user")))

-- SendMessage, once the type is known to be one
client_active : ℕ → Ptr → (RemoteRoom → Action World Done) → Action World Done
unfolding this_remote set_remote
client_active now p then_send = do
  r ← this_remote p
  set_remote p (record r { active_at = now })
  then_send r

-- SendMessage
unfoldable pub client_send : Env → ℕ → Ptr → Message → Action World Done
unfolding client_active client_known
client_send env now p msg =
    if not_message_type msg.type
    then fail (text (concat "message type " (concat msg.type " not found")))
    else client_active now p (λ r. client_known env now r msg)

-- Close; its code goes to the metric alone.
unfoldable pub close_client : Ptr → String → Action World Done
unfolding this_remote
close_client p code = this_remote p >>= close_remote p

abbrev pub client_verdict : ℕ → RemoteRoom → String × Bool
client_verdict now r =
    if is_closed r.basic
    then ("close", true)
    else ("timeout", ltb (60 * 60000) (now - r.created_at) || ltb 20000 (now - r.active_at))

-- ShouldRemove
unfoldable pub should_remove_client : ℕ → Ptr → Action World (String × Bool)
unfolding this_remote
should_remove_client now p = do r ← this_remote p; pure (client_verdict now r)
