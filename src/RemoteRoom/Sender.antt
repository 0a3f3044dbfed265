-- ===== src/RemoteRoom/Sender.antt =====
-- Who a client's message comes from.
use page_spy_api.Base.{ℕ, ◌≡◌, refl, ap, Option, if◌then◌else◌}
use page_spy_api.Base.Text.{concat}
use page_spy_api.Failure.{text}
use page_spy_api.Message.{
  Connection, Content, message_content, broadcast_content, Message, not_message_type,
}
use page_spy_api.World.{Ptr, RemoteRoom, World, Env}
use page_spy_api.World.Action.{Done, Action, fail}
use page_spy_api.RemoteRoom.{
  client_message, client_broadcast, client_known, client_active, client_send,
}

-- The content, as a client that names c as its sender would write it.
abbrev pub claimed_by : Option Connection → Content → Content
claimed_by c (message_content content) = message_content (record content { from = c })
claimed_by c (broadcast_content content) = broadcast_content (record content { from = c })
claimed_by c content = content

abbrev pub claims : Option Connection → Message → Message
claims c msg = record msg { content = claimed_by c msg.content }

module _ (env : Env) (r : RemoteRoom) (c : Option Connection) where
  message_claimed :
      (msg : Message) (content : Content)
      → client_message env r (claims c msg) (claimed_by c content)
        ≡ client_message env r msg content
  unfolding client_message
  message_claimed msg (message_content content) = refl
  message_claimed msg content = refl

  broadcast_claimed :
      (msg : Message) (content : Content)
      → client_broadcast env r (claims c msg) (claimed_by c content)
        ≡ client_broadcast env r msg content
  unfolding client_broadcast
  broadcast_claimed msg (broadcast_content content) = refl
  broadcast_claimed msg content = refl

  known_claimed :
      (now : ℕ) (msg : Message) → client_known env now r (claims c msg) ≡ client_known env now r msg
  unfolding client_known
  known_claimed now msg =
      rw (message_claimed msg msg.content, broadcast_claimed msg msg.content) refl

-- A client cannot send in another's name: whatever sender its message names, or none, SendMessage
-- does and emits the same.
pub client_send-claims :
    (env : Env) (now : ℕ) (p : Ptr) (c : Option Connection) (msg : Message)
    → client_send env now p (claims c msg) ≡ client_send env now p msg
unfolding client_send
client_send-claims env now p c msg =
    ap
      (λ (f : RemoteRoom → Action World Done).
        if not_message_type msg.type
        then fail (text (concat "message type " (concat msg.type " not found")))
        else client_active now p f)
      (λ i r. known_claimed env r c now msg i)
