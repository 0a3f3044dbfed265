-- ===== src/Cluster.antt =====
-- room/rpc_local_manager.go and room/rpc_remote_manager.go over rpc/rpc_client.go: instances that
-- call each other's managers of rooms. A call goes to the handler of the instance that the address
-- names, over a network that may lose the call or the answer.
pub mod Listing
pub mod Errors
pub mod Tests
use page_spy_api.Base.{
  ℕ, String, Bool, true, false, Option, none, some, List, [], ◌∷◌, ◌++◌, ◌==◌, ltb, map,
  if◌then◌else◌,
}
use page_spy_api.Base.Dict.{Dict, lookup, insert}
use page_spy_api.Base.Text.{concat}
use page_spy_api.Failure.{
  RoomError, GoError, room_error, wrapped, error_text, Outcome, ok, err, panic, text, set_error,
  get_error, room_not_found_error,
}
use page_spy_api.Address.{Address}
use page_spy_api.Message.{Connection, Info}
use page_spy_api.World.{Ptr, Object, remote, World, Env}
use page_spy_api.World.Action.{Action, Done, ◌>>=◌, ◌>>◌, pure, lift, halt, fail}
use page_spy_api.LocalRoom.Fields.{this}
use page_spy_api.LocalManager
use page_spy_api.LocalManager.{Managed, in_world, allocate, get_rooms}
use page_spy_api.RemoteRoom.{new_remote_room, start_remote}

-- RpcLocalRoomManagerResponse; a room that crosses the network is a copy, and of it only the
-- information is read.
pub record Response : Type 0 where
  pub error : Option RoomError
  pub rooms : List Info
  pub room : Option Info

abbrev pub empty_response : Response
empty_response = record { error = none; rooms = []; room = none }

abbrev pub answer_room : Outcome Info → Outcome Response
answer_room (ok i) = ok (record empty_response { room = some i })
answer_room (err e) = ok (record empty_response { error = set_error (some e) })
answer_room panic = panic

abbrev pub answer_done : Outcome Done → Outcome Response
answer_done (ok d) = ok empty_response
answer_done (err e) = ok (record empty_response { error = set_error (some e) })
answer_done panic = panic

-- The handlers CreateRoom, GetRoom and UpdateRoomOption
unfoldable pub respond_room : Action Managed Ptr → Action Managed Response
unfolding in_world this
respond_room m s = let (r, t) = info_of s in (answer_room r, t)
  where
    info_of : Action Managed Info
    info_of = do p ← m; r ← in_world (this p); pure r.info

-- The handlers RemoveRoom, LeaveRoom and JoinRoom
unfoldable pub respond_done : Action Managed Done → Action Managed Response
respond_done m s = let (r, t) = m s in (answer_done r, t)

-- What became of a call on its way.
pub data Delivery : Type 0 where
  answered : Delivery
  unsent : GoError → Delivery
  unanswered : GoError → Delivery

pub record Cluster : Type 0 where
  pub machines : Dict Managed
  pub deliveries : List Delivery

-- The error that a client sees if the handler panics and the server drops the connection.
abbrev dropped : GoError
dropped = text "EOF"

-- RpcClient.call: the response's error is the call's.
abbrev pub reply : Outcome Response → Outcome Response
reply (ok res) = elim (get_error res.error) [ none ↦ ok res | some e ↦ err e ]
reply (err e) = err e
reply panic = err dropped

abbrev pub carry : Delivery → Outcome Response × Managed → Managed → Outcome Response × Managed
carry answered (r, t) s = (reply r, t)
carry (unsent e) (r, t) s = (err e, s)
carry (unanswered e) (r, t) s = (err e, t)

abbrev next_delivery : List Delivery → Delivery
next_delivery [] = answered
next_delivery (d ∷ ds) = d

abbrev later_deliveries : List Delivery → List Delivery
later_deliveries [] = []
later_deliveries (d ∷ ds) = ds

-- A call of a handler of machine m, which is s.
unfoldable pub call_machine : String → Action Managed Response → Managed → Action Cluster Response
call_machine m h s c =
    let (r, t) = carry (next_delivery c.deliveries) (h s) s in
    (r, record { machines = insert m t c.machines; deliveries = later_deliveries c.deliveries })

unfoldable pub call_client_of :
    String → Action Managed Response → Option Managed → Action Cluster Response
unfolding call_machine ◌>>=◌
call_client_of m h (some s) = call_machine m h s
call_client_of m h none = fail (text (concat "rpc client " (concat m " not found")))

-- getRpcByAddress, and Call of the client that it finds
unfoldable pub call_at :
    Option Address → (String → Action Managed Response) → Action Cluster Response
unfolding call_client_of lookup
call_at none h c = fail (text "get rpc address is nil") c
call_at (some a) h c =
    call_client_of a.machine_id (h a.machine_id) (lookup a.machine_id c.machines) c

unfoldable pub on_found :
    {A : Type 0} → String → Action Managed A → Option Managed → Action Cluster A
unfolding insert
on_found self m none c = (panic, c)
on_found self m (some s) c =
    let (r, t) = m s in (r, record c { machines = insert self t c.machines })

-- An action on this instance, without the network.
unfoldable pub on_self : {A : Type 0} → String → Action Managed A → Action Cluster A
unfolding lookup on_found
on_self self m c = on_found self m (lookup self c.machines) c

-- The error that JoinRoom returned is that the room was not found.
abbrev pub is_not_found : GoError → Bool
is_not_found (room_error e) = e.code == room_not_found_error
is_not_found _ = false

abbrev pub again : Outcome Ptr → Outcome Ptr
again (err e) = err (wrapped (concat "force create room error " (error_text e)) e)
again r = r

module _ (env : String → Env) (self : String) (now : ℕ) where
  -- GetRoom
  unfoldable pub remote_get : Info → Action Cluster Response
  unfolding call_at respond_room
  remote_get info = call_at info.address (λ m. respond_room (LocalManager.find_room info))

  -- UpdateRoomOption
  unfoldable pub remote_update : Info → Action Cluster Response
  unfolding call_at respond_room
  remote_update info =
      call_at info.address (λ m. respond_room (LocalManager.update_room_option info))

  -- CreateRemoteRoom
  unfoldable pub remote_create : Info → Action Cluster Response
  unfolding call_at respond_room
  remote_create info =
      call_at info.address (λ m. respond_room (LocalManager.create_room (env m) now info))

  -- RemoveRoom
  unfoldable pub remote_remove : Info → Action Cluster Response
  unfolding call_at respond_done
  remote_remove info =
      call_at info.address (λ m. respond_done (LocalManager.remove (env m) now info))

  -- LeaveRoom
  unfoldable pub remote_leave : Info → Connection → Action Cluster Response
  unfolding call_at respond_done
  remote_leave info c =
      call_at info.address (λ m. respond_done (LocalManager.leave_room (env m) now info c))

  -- joinRoom
  unfoldable pub remote_join : Info → Connection → Action Cluster Response
  unfolding call_at respond_done
  remote_join info c =
      call_at info.address (λ m. respond_done (LocalManager.join_room (env m) now info c))

  -- CreateRoom: at home without a call
  unfoldable pub create_at_home : Bool → Info → Action Cluster Done
  unfolding on_self remote_create
  create_at_home true info = on_self self (LocalManager.create_room (env self) now info) >> pure tt
  create_at_home false info = remote_create info >> pure tt

  unfoldable pub create_anywhere : Info → Option Address → Action Cluster Done
  unfolding create_at_home ◌>>=◌
  create_anywhere info none c = (panic, c)
  create_anywhere info (some a) c = create_at_home (self == a.machine_id) info c

  -- NewRemoteRoom and Start
  unfoldable pub open_client : Connection → Info → Option Info → Action World Ptr
  unfolding new_remote_room allocate start_remote
  open_client c opt info = do
    r ← new_remote_room now c opt info
    p ← allocate (remote r)
    start_remote p
    pure p

  -- JoinRoom
  unfoldable pub join_anywhere : Connection → Info → Action Cluster Ptr
  unfolding remote_get on_self open_client remote_join in_world
  join_anywhere c opt = do
    res ← remote_get opt
    p ← on_self self (in_world (open_client c opt res.room))
    remote_join opt c
    pure p

  -- The second JoinRoom of ForceJoinRoom
  unfoldable pub join_again : Connection → Info → Action Cluster Ptr
  unfolding join_anywhere
  join_again c opt s = let (r, t) = join_anywhere c opt s in (again r, t)

  unfoldable pub force_found : Connection → Info → Info → GoError → Bool → Action Cluster Ptr
  unfolding create_anywhere join_again
  force_found c opt room_opt e true = do create_anywhere room_opt room_opt.address; join_again c opt
  force_found c opt room_opt e false = fail e

  unfoldable pub force_after : Connection → Info → Info → Outcome Ptr → Action Cluster Ptr
  unfolding force_found ◌>>=◌
  force_after c opt room_opt (err e) = force_found c opt room_opt e (is_not_found e)
  force_after c opt room_opt (ok p) = pure p
  force_after c opt room_opt panic = halt

  -- ForceJoinRoom
  unfoldable pub force_join : Connection → Info → Info → Action Cluster Ptr
  unfolding join_anywhere force_after
  force_join c opt room_opt s = let (r, t) = join_anywhere c opt s in force_after c opt room_opt r t
