-- ===== src/Samples.antt =====
-- Sample data for the tests: a room of two connections on one instance.
use page_spy_api.Base.{String, none, some, [], ◌∷◌, true, false, inr}
use page_spy_api.Status.{running_status}
use page_spy_api.Address.{Address}
use page_spy_api.Message.{Connection, Info}
use page_spy_api.World.{BasicRoom, LocalRoom, RemoteRoom, local, remote, free, World, Env, write}

abbrev pub address : String → Address
address l = record { id = l; machine_id = "local"; local_id = l }

abbrev pub connection : String → Connection
connection l = record { address = some (address l); created_at = 0; user_id = ""; name = l }

abbrev pub info : Info
info = record {
  name = "demo";
  group = "";
  tags = [];
  address = some (address "room.local");
  secret = "s";
  use_secret = true;
  created_at = 0;
  active_at = 0;
  connections = connection "a.local" ∷ connection "b.local" ∷ [];
}

abbrev pub running : BasicRoom
running = record { machine = record { status = running_status }; done = false }

abbrev pub room : LocalRoom
room = record {
  basic = running;
  close_reason = "unknown";
  close_code = "unknown";
  info = info;
  messages = [];
}

abbrev pub client : String → RemoteRoom
client l = record {
  basic = running;
  connection = connection l;
  opt = info;
  rpc_info = none;
  messages = [];
  created_at = 0;
  active_at = 0;
}

-- The room at 0, the clients of the two connections at 1 and 2.
abbrev pub world : World
world = record {
  listeners = ("room.local", 0 ∷ []) ∷ ("a.local", 1 ∷ []) ∷ ("b.local", 2 ∷ []) ∷ [];
  heap =
      write 0 (local room)
        (write 1 (remote (client "a.local")) (write 2 (remote (client "b.local")) (λ p. free)));
  next = 3;
  sent = [];
}

-- A codec that carries every content to the empty one of its type.
abbrev pub env : Env
env = record {
  self_machine_id = "local";
  rpc_list = [];
  marshal = λ c. inr "{}";
  unmarshal = λ text c. inr c;
}
