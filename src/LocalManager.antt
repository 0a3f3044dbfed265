-- ===== src/LocalManager.antt =====
-- room/basic_manager.go and room/local_manager.go: the table of an instance's rooms, and the calls
-- that create, find, update, join, leave and remove them. The read lock is held within one
-- operation of the table; a call is a sequence of such operations here too.
pub mod Growth
pub mod Size
pub mod Tags
pub mod Creation
pub mod Removal
pub mod Refusal
pub mod Tests
use page_spy_api.Base.{
  ℕ, suc, String, Bool, true, false, Option, none, some, List, [], ◌∷◌, length, leb, if◌then◌else◌,
}
use page_spy_api.Base.Dict.{Dict, lookup, insert, delete, values}
use page_spy_api.Base.Text.{concat}
use page_spy_api.Failure.{GoError, Outcome, text, new_room_not_found_error}
use page_spy_api.Status.{StatusMachine, running_status, is_status, set_status}
use page_spy_api.Address.{Address}
use page_spy_api.Message.{Connection, Info}
use page_spy_api.World.{Ptr, Object, local, World, Env, write}
use page_spy_api.World.Action.{Action, Done, ◌>>=◌, ◌>>◌, pure, lift, fail, modify, attempt}
use page_spy_api.Rooms.{is_closed}
use page_spy_api.LocalRoom.Fields.{this, id_of, new_local_room, update_info}
use page_spy_api.LocalRoom.Sending.{start}
use page_spy_api.LocalRoom.Membership.{join, leave}
use page_spy_api.LocalRoom.Lifetime.{should_remove, close}

-- LocalRoomManager with the BasicManager in it, without the logger and the emitter.
pub record LocalRoomManager : Type 0 where
  pub machine : StatusMachine
  pub rooms_map : Dict Ptr
  pub max_room_size : ℕ

-- The manager beside the rooms and the listeners.
pub record Managed : Type 0 where
  pub manager : LocalRoomManager
  pub world : World

unfoldable pub in_world : {A : Type 0} → Action World A → Action Managed A
in_world m s = let (r, w) = m s.world in (r, record s { world = w })

-- An operation of the table.
unfoldable pub on_table : {A : Type 0} → (Dict Ptr → A × Dict Ptr) → Action Managed A
unfolding ◌>>=◌
on_table f s =
    let (a, m) = f s.manager.rooms_map in
    pure a (record s { manager = record (s.manager) { rooms_map = m } })

-- NewLocalRoomManager
abbrev new_local_room_manager : StatusMachine → ℕ → LocalRoomManager
new_local_room_manager machine max = record {
  machine = machine;
  rooms_map = [];
  max_room_size = max;
}

-- room.GetRoomAddress().ID
unfoldable pub room_id : Ptr → Action Managed String
unfolding in_world this
room_id p = do r ← in_world (this p); lift (id_of r.info.address)

unfoldable pub add_room : Ptr → Action Managed Done
unfolding on_table insert room_id
add_room p = do id ← room_id p; on_table (λ m. (tt, insert id p m))

unfoldable pub remove_room : Ptr → Action Managed Done
unfolding on_table delete room_id
remove_room p = do id ← room_id p; on_table (λ m. (tt, delete id m))

-- getRoom, and getLocalRoom: all rooms of this table are local ones
unfoldable pub get_room : Info → Action Managed (Option Ptr)
unfolding on_table lookup
get_room opt = do id ← lift (id_of opt.address); on_table (λ m. (lookup id m, m))

unfoldable pub get_rooms : Action Managed (List Ptr)
unfolding on_table values
get_rooms = on_table (λ m. (values m, m))

unfoldable pub is_full : Action Managed Bool
unfolding get_rooms
is_full s = (do rooms ← get_rooms; pure (leb s.manager.max_room_size (length rooms))) s

-- A new object on the heap
unfoldable pub allocate : Object → Action World Ptr
unfolding ◌>>=◌
allocate o w = pure w.next (record w { heap = write w.next o w.heap; next = suc w.next })

-- NewLocalRoom, and Start
unfoldable pub open_room : Env → ℕ → Info → Action World Ptr
unfolding new_local_room allocate start
open_room env now info = do
  r ← lift (new_local_room now info)
  p ← allocate (local r)
  start env now p
  pure p

-- CreateRoom, of an address that was not found
unfoldable pub create_new : Env → ℕ → Info → Action Managed Ptr
unfolding in_world open_room add_room
create_new env now info = do p ← in_world (open_room env now info); add_room p; pure p

unfoldable pub create_unless : Env → ℕ → Info → Option Ptr → Action Managed Ptr
unfolding create_new
create_unless env now info (some p) = pure p
create_unless env now info none = create_new env now info

abbrev full_error : GoError
full_error = text "the maximum number of rooms has been reached and no more can be created"

unfoldable pub create_at : Env → ℕ → Info → Option Address → Action Managed Ptr
unfolding get_room create_unless
create_at env now info none = fail (text "create room address is nil")
create_at env now info (some a) = get_room info >>= create_unless env now info

unfoldable pub create_room : Env → ℕ → Info → Action Managed Ptr
unfolding is_full create_at
create_room env now info = do
  full ← is_full
  if full then fail full_error else create_at env now info info.address

-- `room %s not found` and what follows, of the address asked for
unfoldable pub not_found : {A : Type 0} → Info → String → Action Managed A
unfolding ◌>>=◌
not_found opt rest = do
  id ← lift (id_of opt.address)
  fail (new_room_not_found_error (concat "room " (concat id rest)))

update_found : Info → Option Ptr → Action Managed Ptr
unfolding in_world update_info
update_found info (some p) = in_world (update_info p info) >> pure p
update_found info none = do
  id ← lift (id_of info.address)
  fail (text (concat "room " (concat id " not found")))

update_at : Info → Option Address → Action Managed Ptr
unfolding get_room update_found
update_at info none = fail (text "update room options address is nil")
update_at info (some a) = get_room info >>= update_found info

unfoldable pub update_room_option : Info → Action Managed Ptr
unfolding update_at
update_room_option info = update_at info info.address

found_room : Info → Option Ptr → Action Managed Ptr
unfolding not_found
found_room opt (some p) = pure p
found_room opt none = not_found opt " not found"

-- GetRoom
unfoldable pub find_room : Info → Action Managed Ptr
unfolding get_room found_room
find_room opt = get_room opt >>= found_room opt

remove_found : Env → ℕ → Option Ptr → Action Managed Done
unfolding in_world remove_room close
remove_found env now none = pure tt
remove_found env now (some p) = remove_room p >> in_world (close env now p "remove")

-- RemoveRoom
unfoldable pub remove : Env → ℕ → Info → Action Managed Done
unfolding get_room remove_found
remove env now opt = get_room opt >>= remove_found env now

-- JoinRoom and LeaveRoom, of a room that is closed or not
join_unless : Env → ℕ → Info → Connection → Ptr → Bool → Action Managed Done
unfolding in_world join not_found
join_unless env now opt c p true = not_found opt " had been closed, join failed"
join_unless env now opt c p false = in_world (join env now p c (some opt))

join_found : Env → ℕ → Info → Connection → Option Ptr → Action Managed Done
unfolding in_world this join_unless not_found
join_found env now opt c none = not_found opt " not found, join failed"
join_found env now opt c (some p) = do
  r ← in_world (this p)
  join_unless env now opt c p (is_closed r.basic)

unfoldable pub join_room : Env → ℕ → Info → Connection → Action Managed Done
unfolding get_room join_found
join_room env now opt c = get_room opt >>= join_found env now opt c

-- What a room's answer to ShouldRemove leads to.
remove_if : Env → ℕ → Ptr → String × Bool → Action Managed Done
unfolding in_world remove_room close
remove_if env now p (code, true) = remove_room p >> in_world (close env now p code)
remove_if env now p (code, false) = pure tt

leave_unless : Env → ℕ → Info → Connection → Ptr → Bool → Action Managed Done
unfolding in_world leave should_remove remove_if
leave_unless env now opt c p true = pure tt
leave_unless env now opt c p false = do
  failed ← attempt (in_world (leave env now p c (some opt)))
  answer ← in_world (should_remove now p)
  remove_if env now p answer

leave_found : Env → ℕ → Info → Connection → Option Ptr → Action Managed Done
unfolding in_world this leave_unless not_found
leave_found env now opt c none = not_found opt " not found, leave failed"
leave_found env now opt c (some p) = do
  r ← in_world (this p)
  leave_unless env now opt c p (is_closed r.basic)

unfoldable pub leave_room : Env → ℕ → Info → Connection → Action Managed Done
unfolding get_room leave_found
leave_room env now opt c = get_room opt >>= leave_found env now opt c

-- One room of a round: an error of Close is logged.
tend : Env → ℕ → Ptr → String × Bool → Action Managed Done
unfolding in_world remove_room close
tend env now p (code, false) = pure tt
tend env now p (code, true) = do
  remove_room p
  failed ← attempt (in_world (close env now p code))
  pure tt

sweep : Env → ℕ → List Ptr → Action Managed Done
unfolding in_world should_remove tend
sweep env now [] = pure tt
sweep env now (p ∷ ps) = do
  answer ← in_world (should_remove now p)
  tend env now p answer
  sweep env now ps

-- A round of the manager's ticker
unfoldable pub loop : Env → ℕ → Action Managed Done
unfolding get_rooms sweep
loop env now = get_rooms >>= sweep env now

-- The start of the manager; the rounds that it begins are runs of `loop`.
unfoldable pub start_manager : Action Managed Done
unfolding ◌>>=◌
start_manager s =
    if is_status s.manager.machine running_status
    then pure tt s
    else pure tt (record s {
      manager = record (s.manager) { machine = set_status running_status s.manager.machine };
    })
