-- ===== src/Sockets/Tests.antt =====
-- Clients of one instance with a room of two connections.
use page_spy_api.Base.{String, inr, none, [], ◌∷◌, map, ◌≡◌, refl}
use page_spy_api.Base.Dict.{lookup}
use page_spy_api.Base.Text.{split}
use page_spy_api.Failure.{ok, text, get_error}
use page_spy_api.Status.{running_status}
use page_spy_api.Message.{RawMessage, is_public_message_type}
use page_spy_api.World.{RemoteRoom, remote, write}
use page_spy_api.LocalManager.{Managed, find_room}
use page_spy_api.Cluster.{Cluster}
use page_spy_api.Responses.{HttpReply, new_success_response, write_response, nothing}
use page_spy_api.Samples.{client, world, env}
use page_spy_api.Sockets.{Connected, Peer}
use page_spy_api.Sockets.Reading.{read_client_message}
use page_spy_api.Sockets.Serving.{yields, a_message, takes, read_loop, write_loop}
use page_spy_api.Sockets.Screening.{
  Ended, Written, client_error_message, read_client_message-Refused,
}
use page_spy_api.Sockets.Pings.{pong, writes, last_message, read_loop-pongs}
use page_spy_api.Sockets.Delivery.{write_loop-delivers}
use page_spy_api.Sockets.Handlers.{handle_check_room_secret}
use page_spy_api.Sockets.Secrets.{Checked, handle_check_room_secret-Checked}

abbrev home : Managed
home = record {
  manager = record {
    machine = record { status = running_status };
    rooms_map = ("room.local", 0) ∷ [];
    max_room_size = 500;
  };
  world = world;
}

abbrev connected : Connected
connected = record {
  cluster = record { machines = ("local", home) ∷ []; deliveries = [] };
  wire = [];
}

abbrev peer : Peer
peer = record { env = λ m. env; self = "local"; now = 5; client = 1; write_error = λ m. none }

ended : Ended peer connected
unfolding lookup
ended = record { home = home; end = client "a.local"; here = refl; at = refl }

abbrev raw_of : String → String → RawMessage
raw_of t request = record { type = t; created_at = 1; request_id = request; content = "{}" }

read_client_message-Refused_example :
    (message : String) × (t : Connected) × (read_client_message peer
        (ok (raw_of "start" "r"))
        connected
      ≡ (ok tt, t))
    × Written peer (client_error_message message) connected t
unfolding is_public_message_type ended
read_client_message-Refused_example =
    read_client_message-Refused peer connected ended refl (raw_of "start" "r") (inr refl)

read_loop-pongs_example :
    read_loop peer
      (text "EOF")
      (map (λ raw. yields (ok raw)) (raw_of "ping" "r" ∷ raw_of "ping" "q" ∷ []))
      connected
    ≡ (
      ok "read_message_close",
      writes connected (
          pong peer (raw_of "ping" "r")
          ∷ pong peer (raw_of "ping" "q")
          ∷ last_message (text "EOF")
          ∷ []),
    )
unfolding ended
read_loop-pongs_example =
    read_loop-pongs peer (λ m. refl) (text "EOF") (raw_of "ping" "r" ∷ raw_of "ping" "q" ∷ [])
      connected ended refl refl ((refl, (_, refl)), ((refl, (_, refl)), tt))

abbrev full_client : RemoteRoom
full_client = record (client "a.local") {
  messages = pong peer (raw_of "ping" "r") ∷ pong peer (raw_of "ping" "q") ∷ [];
}

abbrev waiting : Connected
waiting = record connected {
  cluster = record {
    machines =
        (
          "local",
          record home { world = record world { heap = write 1 (remote full_client) world.heap } },
        )
        ∷ [];
    deliveries = [];
  };
}

waits : Ended peer waiting
unfolding lookup
waits = record { home = _; end = full_client; here = refl; at = refl }

write_loop-delivers_example :
    (t : Connected) × (d : Ended peer t) × (write_loop peer
        (takes a_message ∷ takes a_message ∷ [])
        waiting
      ≡ (ok tt, t))
    × (t.wire ≡ full_client.messages)
    × (d.end ≡ client "a.local")
unfolding waits
write_loop-delivers_example =
    write_loop-delivers peer (λ m. refl) full_client.messages waiting waits refl refl

granted : HttpReply
granted = write_response (new_success_response nothing)

answers :
    (t : Cluster) × (handle_check_room_secret
        (λ m. env)
        "local"
        5
        "s"
        "room.local"
        connected.cluster
      ≡ (ok granted, t))
unfolding granted handle_check_room_secret split find_room get_error
answers = (_, refl)

handle_check_room_secret-Checked_example :
    Checked (λ m. env) "local" 5 "s" "room.local" connected.cluster answers.0
unfolding granted new_success_response
handle_check_room_secret-Checked_example =
    handle_check_room_secret-Checked (λ m. env) "local" 5 "s" "room.local" connected.cluster
      answers.0 granted answers.1 refl
