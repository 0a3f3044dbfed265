-- ===== src/RemoteRoom/Tests.antt =====
-- A client's end of a room.
use page_spy_api.Base.{◌≡◌, false, some}
use page_spy_api.Message.{Message, broadcast_content}
use page_spy_api.Samples.{connection, env}
use page_spy_api.RemoteRoom.{client_send}
use page_spy_api.RemoteRoom.Sender.{claims, client_send-claims}

abbrev shout : Message
shout = record {
  type = "broadcast";
  created_at = 1;
  request_id = "r";
  content =
      broadcast_content
        (record { data_ = "hi"; from = some (connection "a.local"); include_self = false });
}

client_send-claims_example :
    client_send env 5 1 (claims (some (connection "b.local")) shout) ≡ client_send env 5 1 shout
client_send-claims_example = client_send-claims env 5 1 (some (connection "b.local")) shout
