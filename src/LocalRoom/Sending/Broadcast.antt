-- ===== src/LocalRoom/Sending/Broadcast.antt =====
-- Broadcasts and unicasts of a room, end to end: from SendMessage to the channel of a listener.
use page_spy_api.Base.{
  ℕ, String, ◌≡◌, refl, sym, ap, subst, ◌∙◌, none, some, List, [], ◌∷◌, ◌++◌, ◌==◌, Bool, true,
  false, not, ◌&&◌, arith, eqb, length, ◌<◌, if◌then◌else◌, inl, inr, All, Bool-cases, eqb_iff,
}
use page_spy_api.Failure.{Outcome, ok}
use page_spy_api.Address.{Address, Package, equal}
use page_spy_api.Message.{
  Connection, Content, Message, BroadcastMessageContent, MessageMessageContent, broadcast_content,
  message_content, broadcast_type, message_type, close_type, new_message_content, not_message_type,
}
use page_spy_api.World.{
  Ptr, LocalRoom, RemoteRoom, local, remote, World, Env, write, write_ne, write_self,
}
use page_spy_api.World.Action.{◌>>=◌, continue}
use page_spy_api.Listeners.{get_listeners}
use page_spy_api.Listeners.Table.{Shrinks-heap}
use page_spy_api.Rooms.{is_closed, capacity, room_message_to_package, package_to_room_message}
use page_spy_api.LocalRoom.Fields.{this, ping}
use page_spy_api.LocalRoom.Sending.{
  deliver, emit_each, broadcast, broadcast_test, broadcast_message, unicast, unicast_to,
  message_message, send_known, send_message,
}
use page_spy_api.LocalRoom.Sending.Delivery.{Peer, Peers-later, own_round}

-- A room at `p`, and a remote room at `q` that alone listens at the address of one of the room's
-- connections, on this machine; it is open and its channel has a place. The loop's test has an
-- answer on that connection and on the others, which have other addresses and can be reached.
pub record Audience (env : Env) (w : World) (p q : Ptr) (test : Connection → Outcome Bool)
    : Type 0 where
  pub room : LocalRoom
  pub at_room : w.heap p ≡ local room
  pub before : List Connection
  pub member : Connection
  pub after : List Connection
  pub seats : room.info.connections ≡ before ++ (member ∷ after)
  pub address : Address
  pub member_address : member.address ≡ some address
  pub hit : Bool
  pub tested : test member ≡ ok hit
  pub mine : env.self_machine_id ≡ address.machine_id
  pub listener : RemoteRoom
  pub alone : get_listeners (some address) w ≡ q ∷ []
  pub at_listener : w.heap q ≡ remote listener
  pub is_open : is_closed listener.basic ≡ false
  pub has_place : length listener.messages < capacity
  pub peers_before : All (Peer env w q address test) before
  pub peers_after : All (Peer env w q address test) after

-- The message with the content that the listener decodes.
abbrev decoded : Message → Content → Message
decoded msg c = record msg { content = c }

-- The codec carries the message's content to `c`.
pub record Carries (env : Env) (msg : Message) (c : Content) : Type 0 where
  pub text : String
  pub encodes : env.marshal msg.content ≡ inr text
  pub decodes : env.unmarshal text (new_message_content msg.type) ≡ inr c

abbrev heard : Message → Content → RemoteRoom → RemoteRoom
heard msg c r = record r { messages = r.messages ++ decoded msg c ∷ [] }

module _ {env : Env} {w : World} {p q : Ptr} {test : Connection → Outcome Bool}
    (s : Audience env w p q test) (now : ℕ) where
  apart : eqb q p ≡ false
  apart = elim (Bool-cases (eqb q p)) [
    | inl e ↦
        absurd (two_kinds (sym s.at_room ∙ ap w.heap (sym ((eqb_iff q p).0 e)) ∙ s.at_listener))
    | inr e ↦ e
  ]
    where
      two_kinds : local s.room ≡ remote s.listener → ⊥
      two_kinds e = cc

  -- The room and the world after Ping.
  room' : LocalRoom
  room' = record (s.room) { info = record (s.room.info) { active_at = now } }

  pinged : World
  unfolding room'
  pinged = record w { heap = write p (local room') w.heap }

  ping_lem : ping now p w ≡ (ok tt, pinged)
  unfolding ping ◌>>=◌ pinged
  ping_lem = rw s.at_room

  Audience-pinged : Audience env pinged p q test
  unfolding pinged
  Audience-pinged = record {
    room = room';
    at_room = write_self p (local room') w.heap;
    before = s.before;
    member = s.member;
    after = s.after;
    seats = s.seats;
    address = s.address;
    member_address = s.member_address;
    hit = s.hit;
    tested = s.tested;
    mine = s.mine;
    listener = s.listener;
    alone = unfold get_listeners in s.alone;
    at_listener = write_ne p q (local room') w.heap apart ∙ s.at_listener;
    is_open = s.is_open;
    has_place = s.has_place;
    peers_before = Peers-later env q s.address test s.before (Shrinks-heap w _) s.peers_before;
    peers_after = Peers-later env q s.address test s.after (Shrinks-heap w _) s.peers_after;
  }

-- A round of the loop in `deliver`: the listener's channel after it.
module _ {env : Env} {w : World} {p q : Ptr} {test : Connection → Outcome Bool}
    (s : Audience env w p q test) (now : ℕ) (msg : Message) (c : Content) where
  sent_package : Carries env msg c → Package
  sent_package k = record {
    from = s.room.info.address;
    created_at = msg.created_at;
    request_id = msg.request_id;
    routing_key = msg.type;
    content = k.text;
  }

  opened :
      (k : Carries env msg c) → package_to_room_message env (sent_package k) ≡ ok (decoded msg c)
  unfolding package_to_room_message sent_package
  opened k = rw k.decodes

  looped :
      (k : Carries env msg c)
      → (msg.type == close_type) ≡ false
      → (emit_each env (sent_package k) test none s.room.info.connections (pinged s now)).1.heap q
        ≡ remote (if s.hit then heard msg c s.listener else s.listener)
  unfolding Audience-pinged sent_package
  looped k stays =
      let t = Audience-pinged s now in
      subst
        (λ cs.
          (emit_each env (sent_package k) test none cs (pinged s now)).1.heap q
          ≡ remote (if s.hit then heard msg c s.listener else s.listener))
        (sym s.seats)
        (own_round env (sent_package k) stays q s.address test s.before s.after s.member s.hit
          (pinged s now) s.listener (decoded msg c) t.peers_before t.peers_after s.member_address
          s.tested s.mine t.alone t.at_listener s.is_open (opened k) stays s.has_place)

  delivered :
      Carries env msg c
      → (msg.type == close_type) ≡ false
      → (deliver env now p msg test w).1.heap q
        ≡ remote (if s.hit then heard msg c s.listener else s.listener)
  unfolding deliver this room_message_to_package ◌>>=◌ sent_package
  delivered k stays =
      rw (s.at_room, continue, k.encodes, continue, ping_lem s now, continue) (looped k stays)

-- SendMessage gets to the branch of the message's type.
known_type : (t k : String) → t ≡ k → not_message_type k ≡ false → not_message_type t ≡ false
known_type t k e h = rw e h

test_type : (t k x : String) (b : Bool) → t ≡ k → (k == x) ≡ b → (t == x) ≡ b
test_type t k x b e h = rw e h

broadcast_on :
    (env : Env) (now : ℕ) (p : Ptr) (msg : Message) (b : Content)
    (content : BroadcastMessageContent)
    → b ≡ broadcast_content content
    → broadcast env now p msg b ≡ deliver env now p msg (broadcast_test content)
unfolding broadcast
broadcast_on env now p msg b content e = rw e

unicast_on :
    (env : Env) (now : ℕ) (p : Ptr) (msg : Message) (b : Content) (content : MessageMessageContent)
    (to : Connection)
    → b ≡ message_content content
    → content.to ≡ some to
    → unicast env now p msg b ≡ deliver env now p msg (λ c. equal c.address to.address)
unfolding unicast unicast_to
unicast_on env now p msg b content to e f = rw (e, f)

-- What the test of a broadcast answers on a connection.
tested_sender :
    (content : BroadcastMessageContent) (from member : Connection) (a sender : Address)
    → content.from ≡ some from
    → from.address ≡ some sender
    → member.address ≡ some a
    → broadcast_test content member ≡ ok (not ((a.id == sender.id) && not content.include_self))
unfolding equal
tested_sender content from member a sender e f g = rw (e, f, g)

tested_receiver :
    (to member : Connection) (a target : Address)
    → to.address ≡ some target
    → member.address ≡ some a
    → equal member.address to.address ≡ ok (a.id == target.id)
unfolding equal
tested_receiver to member a target f g = rw (f, g)

-- A broadcast reaches every listener of the room but, unless it includes the sender, the sender's
-- own: for a listener that alone listens at its connection's address on this machine, is open and
-- has a place in its channel, beside connections of other addresses whose machines can be reached,
-- sending a broadcast leaves the listener as it was if its address is the sender's and the sender is
-- not included, and otherwise with the message, in the form that the codec carries it, behind those
-- that it had.
pub send_message-broadcast :
    (env : Env) (w : World) (p q : Ptr) (now : ℕ) (msg : Message)
    (content : BroadcastMessageContent) (from : Connection) (sender : Address) (c : Content)
    → msg.type ≡ broadcast_type
    → msg.content ≡ broadcast_content content
    → content.from ≡ some from
    → from.address ≡ some sender
    → (s : Audience env w p q (broadcast_test content)) → Carries env msg c
    → (send_message env now p msg w).1.heap q
      ≡ remote (
          if (s.address.id == sender.id) && not content.include_self
          then s.listener
          else heard msg c s.listener)
unfolding send_message send_known broadcast_message not_message_type ◌>>=◌
send_message-broadcast env w p q now msg content from sender c type body e f s k =
    rw
      (
        known_type msg.type broadcast_type type refl,
        ping_lem s now,
        continue,
        test_type msg.type broadcast_type message_type false type refl,
        test_type msg.type broadcast_type broadcast_type true type refl,
        broadcast_on env now p msg msg.content content body,
        delivered (Audience-pinged s now) now msg c k
            (test_type msg.type broadcast_type close_type false type refl),
      )
      (unfold Audience-pinged in
        ground (
          arith,
          s.tested,
          tested_sender content from s.member s.address sender e f s.member_address,
        ))

-- A unicast reaches the listener of the connection that it names and no other. For an open remote room
-- that alone listens at the address of one of the connections, on this instance, and has a place in
-- its channel, beside connections of other addresses whose machines can be reached, sending a message
-- with a receiver leaves the listener with the message, in the form that the codec carries it, behind
-- those that it had if its address is the receiver's, and as it was otherwise.
pub send_message-message :
    (env : Env) (w : World) (p q : Ptr) (now : ℕ) (msg : Message) (content : MessageMessageContent)
    (to : Connection) (target : Address) (c : Content)
    → msg.type ≡ message_type
    → msg.content ≡ message_content content
    → content.to ≡ some to
    → to.address ≡ some target
    → (s : Audience env w p q (λ m. equal m.address to.address)) → Carries env msg c
    → (send_message env now p msg w).1.heap q
      ≡ remote (if s.address.id == target.id then heard msg c s.listener else s.listener)
unfolding send_message send_known message_message not_message_type equal ◌>>=◌
send_message-message env w p q now msg content to target c type body f e s k =
    rw
      (
        known_type msg.type message_type type refl,
        ping_lem s now,
        continue,
        test_type msg.type message_type message_type true type refl,
        unicast_on env now p msg msg.content content to body f,
        delivered (Audience-pinged s now) now msg c k
            (test_type msg.type message_type close_type false type refl),
      )
      (unfold Audience-pinged in
        ground (arith, s.tested, tested_receiver to s.member s.address target e s.member_address))
