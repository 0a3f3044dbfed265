-- ===== src/Sockets/Joining.antt =====
-- serve/socket/socket.go: JoinRoom, from the upgrade of the request to the end of the socket.
use page_spy_api.Base.{String, false, Option, none, some, List, [], ◌==◌, if◌then◌else◌}
use page_spy_api.Base.Text.{concat}
use page_spy_api.Failure.{
  GoError, wrapped, error_text, Outcome, ok, err, panic, text, new_room_not_found_error,
}
use page_spy_api.Address.{Address, new_address_from_id, generator_address}
use page_spy_api.Message.{Connection, Info, new_room_info, new_connect_message}
use page_spy_api.World.{Ptr}
use page_spy_api.World.Action.{Action, Done, ◌>>=◌, pure, lift, halt, attempt}
use page_spy_api.LocalRoom.Fields.{id_of}
use page_spy_api.Cluster.{Cluster, remote_get, join_anywhere, force_join}
use page_spy_api.Sockets.{Connected, Peer, in_cluster, write_json, write_websocket_error}
use page_spy_api.Sockets.Serving.{Turn, serve_room}

-- What JoinRoom reads of its request, with the uuid that is drawn for the connection.
pub record JoinRequest : Type 0 where
  pub address : String
  pub group : String
  pub name : String
  pub user_id : String
  pub force_create : String
  pub secret : String
  pub use_secret : String
  pub uuid : String

-- CreateConnection, with the name and the user of the request
abbrev pub connection_of : Peer → JoinRequest → Connection
connection_of peer q = record {
  address = some (generator_address peer.self q.uuid);
  created_at = peer.now;
  user_id = q.user_id;
  name = q.name;
}

-- joinOpt
abbrev pub join_opt : JoinRequest → Address → Info
join_opt q a = record {
  name = "";
  group = q.group;
  tags = [];
  address = some a;
  secret = q.secret;
  use_secret = false;
  created_at = 0;
  active_at = 0;
  connections = [];
}

abbrev could_not : GoError → GoError
could_not e = wrapped (concat "get room user list failed, " (error_text e)) e

module _ (peer : Peer) where
  -- The call of ForceJoinRoom or of JoinRoom
  unfoldable pub enter : JoinRequest → Address → Action Cluster Ptr
  unfolding force_join join_anywhere new_room_info
  enter q a =
      if q.force_create == "true"
      then force_join peer.env peer.self peer.now (connection_of peer q) (join_opt q a)
          (new_room_info peer.now "" q.secret (q.use_secret == "true") [] "" (some a))
      else join_anywhere peer.env peer.self peer.now (connection_of peer q) (join_opt q a)

  -- GetRoomUsers
  abbrev users_of : String → Option Info → Outcome (List Connection)
  users_of id none = err (text (concat "room " (concat id " not found")))
  users_of id (some i) = ok i.connections

  unfoldable pub get_room_users : Info → Action Cluster (List Connection)
  unfolding remote_get ◌>>=◌
  get_room_users info = do
    res ← remote_get peer.env peer.self peer.now info
    id ← lift (id_of info.address)
    lift (users_of id res.room)

  -- JoinRoom behind the list of users: the connect message, whose error is logged, and the serving
  unfoldable pub serve_joined :
      JoinRequest → Address → GoError → List Turn → Ptr → List Connection → Action Connected Done
  unfolding serve_room new_connect_message ◌>>=◌
  serve_joined q a closed turns p users = do
    let joined = record peer { client = p }
    logged ←
        attempt
          (write_json joined (new_connect_message peer.now (some (connection_of peer q)) users))
    serve_room joined (join_opt q a) (connection_of peer q) closed turns

  -- An error of joining, or of the list of users, is written.
  unfoldable pub after_users :
      (List Connection → Action Connected Done) → Outcome (List Connection) → Action Connected Done
  unfolding write_websocket_error
  after_users next (ok users) = next users
  after_users next (err e) = write_websocket_error peer (could_not e)
  after_users next panic = halt

  unfoldable pub after_enter :
      JoinRequest → Address → GoError → List Turn → Outcome Ptr → Action Connected Done
  unfolding get_room_users after_users serve_joined write_websocket_error in_cluster
  after_enter q a closed turns (ok p) s =
      let (r, t) = in_cluster (get_room_users (join_opt q a)) s in
      after_users (serve_joined q a closed turns p) r t
  after_enter q a closed turns (err e) s = write_websocket_error peer (could_not e) s
  after_enter q a closed turns panic s = (panic, s)

  unfoldable pub join_at :
      JoinRequest → GoError → List Turn → Outcome Address → Action Connected Done
  unfolding enter after_enter in_cluster write_websocket_error
  join_at q closed turns (ok a) s =
      let (r, t) = in_cluster (enter q a) s in after_enter q a closed turns r t
  join_at q closed turns (err e) s =
      write_websocket_error peer (new_room_not_found_error (error_text e)) s
  join_at q closed turns panic s = (panic, s)

  -- JoinRoom: an upgrade that fails is logged.
  unfoldable pub handle_join_room :
      Option GoError → JoinRequest → GoError → List Turn → Action Connected Done
  unfolding join_at new_address_from_id
  handle_join_room (some e) q closed turns = pure tt
  handle_join_room none q closed turns = join_at q closed turns (new_address_from_id q.address)
