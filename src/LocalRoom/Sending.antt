-- ===== src/LocalRoom/Sending.antt =====
-- room/local_room.go: SendMessage and what it calls, Start, and the goroutine that Start begins.
pub mod Frame
pub mod Activity
pub mod Quiet
pub mod Delivery
pub mod Broadcast
use page_spy_api.Base.{
  ℕ, String, Bool, true, false, not, ◌&&◌, Option, none, some, List, [], ◌∷◌, ◌==◌, if◌then◌else◌,
}
use page_spy_api.Base.Text.{concat}
use page_spy_api.Failure.{GoError, Outcome, ok, err, panic, text}
use page_spy_api.Address.{Package, equal}
use page_spy_api.Message.{
  Connection, Message, Content, BroadcastMessageContent, message_content, broadcast_content,
  message_type, broadcast_type, ping_type, not_message_type, new_start_message,
}
use page_spy_api.World.{Ptr, World, Env}
use page_spy_api.World.Action.{Action, Done, ◌>>=◌, ◌>>◌, pure, fail, lift, attempt, return_error}
use page_spy_api.Listeners
use page_spy_api.Rooms.{room_message_to_package}
use page_spy_api.Emitter.{emit}
use page_spy_api.LocalRoom.Fields.{this, set_this, ping, deref}

abbrev pub later : Option GoError → Option GoError → Option GoError
later none old = old
later (some e) old = some e

emit_if : Env → Package → Connection → Bool → Action World (Option GoError)
emit_if env pkg c true = attempt (emit env c.address pkg)
emit_if env pkg c false = pure none

-- The loop over the connections: what passes the test is emitted to, and the last error is kept.
pub emit_each :
    Env
    → Package
    → (Connection → Outcome Bool)
    → Option GoError
    → List Connection
    → Action World Done
unfolding emit_if
emit_each env pkg test e [] = return_error e
emit_each env pkg test e (c ∷ cs) = do
  hit ← lift (test c)
  failed ← emit_if env pkg c hit
  emit_each env pkg test (later failed e) cs

-- What otherMessage, broadcastMessage and messageMessage have in common.
unfoldable pub deliver : Env → ℕ → Ptr → Message → (Connection → Outcome Bool) → Action World Done
unfolding this ping emit_each
deliver env now p msg test = do
  r ← this p
  pkg ← lift (room_message_to_package env msg r.info.address)
  ping now p
  emit_each env pkg test none r.info.connections

abbrev everybody : Connection → Outcome Bool
everybody c = ok true

unfoldable pub other_message : Env → ℕ → Ptr → Message → Action World Done
unfolding deliver
other_message env now p msg = deliver env now p msg everybody

-- !(c.Address.Equal(content.From.Address) && !content.IncludeSelf)
abbrev not_sender : Bool → Outcome Bool → Outcome Bool
not_sender include_self (ok same) = ok (not (same && not include_self))
not_sender include_self (err e) = err e
not_sender include_self panic = panic

abbrev pub broadcast_test : BroadcastMessageContent → Connection → Outcome Bool
broadcast_test content c = elim content.from [
  | none ↦ panic
  | some from ↦ not_sender content.include_self (equal c.address from.address)
]

broadcast : Env → ℕ → Ptr → Message → Content → Action World Done
unfolding deliver
broadcast env now p msg (broadcast_content content) = deliver env now p msg (broadcast_test content)
broadcast env now p msg _ = fail (text "message format is invalid")

unfoldable pub broadcast_message : Env → ℕ → Ptr → Message → Action World Done
unfolding broadcast
broadcast_message env now p msg = broadcast env now p msg msg.content

unicast_to : Env → ℕ → Ptr → Message → Option Connection → Action World Done
unfolding deliver
unicast_to env now p msg none = fail (text "unicast message's field 'to' is empty")
unicast_to env now p msg (some to) = deliver env now p msg (λ c. equal c.address to.address)

unicast : Env → ℕ → Ptr → Message → Content → Action World Done
unfolding unicast_to
unicast env now p msg (message_content content) = unicast_to env now p msg content.to
unicast env now p msg _ = fail (text "message format is invalid")

unfoldable pub message_message : Env → ℕ → Ptr → Message → Action World Done
unfolding unicast
message_message env now p msg = unicast env now p msg msg.content

pub send_known : Env → ℕ → Ptr → Message → Action World Done
unfolding ping message_message broadcast_message other_message
send_known env now p msg =
    if msg.type == message_type
    then message_message env now p msg
    else if msg.type == broadcast_type
    then broadcast_message env now p msg
    else if msg.type == ping_type
    then ping now p
    else if not (not_message_type msg.type)
    then other_message env now p msg
    else fail (
        text
          (concat "message type " (concat msg.type " is not supported to be sent by normal user")))

-- The second test for an unknown type repeats the first.
unfoldable pub send_message : Env → ℕ → Ptr → Message → Action World Done
unfolding ping send_known
send_message env now p msg =
    if not_message_type msg.type
    then fail (text (concat "message type " (concat msg.type " not found")))
    else ping now p >> send_known env now p msg

-- An error is logged.
unfoldable pub send_message_with_timeout : Env → ℕ → Ptr → Message → Action World Done
unfolding send_message
send_message_with_timeout env now p msg = do failed ← attempt (send_message env now p msg); pure tt

-- Start registers the room and announces it. `pump` is a round of the goroutine that it begins, in
-- which the channel of messages was ready.
unfoldable pub start : Env → ℕ → Ptr → Action World Done
unfolding this send_message_with_timeout
start env now p = do
  r ← this p
  Listeners.listen r.info.address p
  a ← lift (deref r.info.address)
  send_message_with_timeout env now p (new_start_message now a)

unfoldable pub pump : Env → ℕ → Ptr → Action World Done
unfolding this set_this send_message_with_timeout
pump env now p = do
  r ← this p
  elim r.messages [
    | [] ↦ pure tt
    | msg ∷ rest ↦ do
      set_this p (record r { messages = rest })
      send_message_with_timeout env now p msg
  ]
