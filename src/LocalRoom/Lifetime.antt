-- ===== src/LocalRoom/Lifetime.antt =====
-- room/local_room.go: Close and ShouldRemove.
pub mod Laws
pub mod Tests
use page_spy_api.Base.{
  ℕ, ◌-◌, ◌*◌, String, Bool, true, false, ◌&&◌, eqb, ltb, length, if◌then◌else◌,
}
use page_spy_api.Status.{init_status, running_status, is_status}
use page_spy_api.Message.{new_close_message}
use page_spy_api.World.{Ptr, LocalRoom, World, Env}
use page_spy_api.World.Action.{Action, Done, ◌>>=◌, ◌>>◌, pure, lift}
use page_spy_api.Listeners.{remove_listener}
use page_spy_api.Rooms.{is_closed, close_basic}
use page_spy_api.LocalRoom.Fields.{this, set_this, deref}
use page_spy_api.LocalRoom.Sending.{send_message_with_timeout}

abbrev minute : ℕ
minute = 60000

abbrev hour : ℕ
hour = 3600000

-- The code that the caller gives is not used: the metric counts the room's own.
unfoldable pub close : Env → ℕ → Ptr → String → Action World Done
unfolding this set_this close_basic send_message_with_timeout
close env now p code = do
  r ← this p
  if is_closed r.basic then pure tt else do
    basic ← lift (close_basic r.basic)
    set_this p (record r { basic = basic })
    remove_listener r.info.address p
    a ← lift (deref r.info.address)
    send_message_with_timeout env now p (new_close_message now a r.close_reason)

abbrev is_empty : LocalRoom → Bool
is_empty r = eqb (length r.info.connections) 0

abbrev no_use_init_room : ℕ → LocalRoom → Bool
no_use_init_room now r =
    is_status r.basic.machine init_status && (is_empty r && ltb minute (now - r.info.created_at))

abbrev no_user_room : ℕ → LocalRoom → Bool
no_user_room now r =
    is_status r.basic.machine running_status && (is_empty r && ltb minute (now - r.info.active_at))

abbrev no_use_room : ℕ → LocalRoom → Bool
no_use_room now r =
    is_status r.basic.machine running_status && ltb (5 * minute) (now - r.info.active_at)

abbrev max_time_room : ℕ → LocalRoom → Bool
max_time_room now r = ltb hour (now - r.info.created_at)

-- The verdict on a room that is not closed: the room with its reason and code, and the answer.
verdict : ℕ → LocalRoom → LocalRoom × (String × Bool)
verdict now r =
    if no_use_init_room now r
    then because "no user connection for more than 1 minute after room setup" "noUseInitRoom"
    else if no_user_room now r
    then because "all the user of room left over 1 minutes" "noUserRoom"
    else if no_use_room now r
    then because "room idle over 5 minutes" "noUseRoom"
    else if max_time_room now r
    then because "room exceeded the maximum time 1 hour" "maxTimeRoom"
    else (r, (r.close_code, false))
  where
    because : String → String → LocalRoom × (String × Bool)
    because reason code = (record r { close_reason = reason; close_code = code }, (code, true))

unfoldable pub should_remove : ℕ → Ptr → Action World (String × Bool)
unfolding this set_this verdict
should_remove now p = do
  r ← this p
  if is_closed r.basic
      then pure (r.close_code, true)
      else do let (r', answer) = verdict now r; set_this p r'; pure answer
