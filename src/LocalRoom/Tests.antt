-- ===== src/LocalRoom/Tests.antt =====
-- A room of two connections on one instance, and what is sent in it.
use page_spy_api.Base.{◌≡◌, refl, some, [], ◌∷◌, true, false, arith, inl}
use page_spy_api.Base.Dict.{lookup}
use page_spy_api.Address.{equal}
use page_spy_api.Message.{
  Message, BroadcastMessageContent, MessageMessageContent, broadcast_content, message_content,
  new_message_content,
}
use page_spy_api.World.{remote}
use page_spy_api.Listeners.{get_listeners}
use page_spy_api.Samples.{address, connection, room, client, world, env}
use page_spy_api.World.Action.Respects.{Respects}
use page_spy_api.LocalRoom.Sending.Frame.{Steady, send_message-Steady}
use page_spy_api.LocalRoom.Sending.{send_message, broadcast_test}
use page_spy_api.LocalRoom.Sending.Broadcast.{
  Audience, Carries, send_message-broadcast, send_message-message,
}

abbrev hello : BroadcastMessageContent
hello = record { data_ = "hello"; from = some (connection "a.local"); include_self = false }

abbrev broadcast : Message
broadcast = record {
  type = "broadcast";
  created_at = 1;
  request_id = "r";
  content = broadcast_content hello;
}

audience : Audience env world 0 2 (broadcast_test hello)
unfolding get_listeners lookup equal
audience = record {
  room = room;
  at_room = refl;
  before = connection "a.local" ∷ [];
  member = connection "b.local";
  after = [];
  seats = refl;
  address = address "b.local";
  member_address = refl;
  hit = true;
  tested = refl;
  mine = refl;
  listener = client "b.local";
  alone = refl;
  at_listener = refl;
  is_open = refl;
  has_place = omega arith;
  peers_before = (
    record {
      at = address "a.local";
      address = refl;
      other = refl;
      away = (refl, tt);
      reachable = inl refl;
      hit = false;
      tested = refl;
    },
    tt,
  );
  peers_after = tt;
}

carried : Carries env broadcast (new_message_content "broadcast")
carried = record { text = "{}"; encodes = refl; decodes = refl }

send_message-broadcast_example :
    (send_message env 5 0 broadcast world).1.heap 2
    ≡ remote (record (client "b.local") {
      messages = record broadcast { content = new_message_content "broadcast" } ∷ [];
    })
unfolding audience
send_message-broadcast_example =
    send_message-broadcast env world 0 2 5 broadcast hello (connection "a.local")
      (address "a.local") (new_message_content "broadcast") refl refl refl refl audience carried

abbrev note : MessageMessageContent
note = record {
  data_ = "note";
  from = some (connection "b.local");
  to = some (connection "a.local");
}

abbrev unicast : Message
unicast = record {
  type = "message";
  created_at = 1;
  request_id = "r";
  content = message_content note;
}

bystander : Audience env world 0 2 (λ m. equal m.address (connection "a.local").address)
unfolding get_listeners lookup equal
bystander = record {
  room = room;
  at_room = refl;
  before = connection "a.local" ∷ [];
  member = connection "b.local";
  after = [];
  seats = refl;
  address = address "b.local";
  member_address = refl;
  hit = false;
  tested = refl;
  mine = refl;
  listener = client "b.local";
  alone = refl;
  at_listener = refl;
  is_open = refl;
  has_place = omega arith;
  peers_before = (
    record {
      at = address "a.local";
      address = refl;
      other = refl;
      away = (refl, tt);
      reachable = inl refl;
      hit = true;
      tested = refl;
    },
    tt,
  );
  peers_after = tt;
}

send_message-message_example :
    (send_message env 5 0 unicast world).1.heap 2 ≡ remote (client "b.local")
unfolding bystander
send_message-message_example =
    send_message-message env world 0 2 5 unicast note (connection "a.local") (address "a.local")
      (new_message_content "message") refl refl refl refl bystander
      (record { text = "{}"; encodes = refl; decodes = refl })

send_message-Steady_example : Respects Steady (send_message env 5 0 broadcast)
send_message-Steady_example = send_message-Steady env 5 0 broadcast
