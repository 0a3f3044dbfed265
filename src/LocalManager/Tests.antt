-- ===== src/LocalManager/Tests.antt =====
-- A manager of at most two rooms.
use page_spy_api.Base.{
  ℕ, ◌+◌, leb, ◌&&◌, if◌then◌else◌, String, ◌≡◌, refl, true, none, some, [], ◌∷◌, arith,
}
use page_spy_api.Base.Dict.{Dict, lookup}
use page_spy_api.Failure.{ok}
use page_spy_api.Status.{running_status}
use page_spy_api.Message.{Info}
use page_spy_api.World.{LocalRoom, local}
use page_spy_api.Rooms.{new_basic_room, is_closed}
use page_spy_api.Listeners.{get_listeners}
use page_spy_api.Listeners.Table.{Without}
use page_spy_api.Samples.{address, info, room, world, env}
use page_spy_api.LocalRoom.Sending.Frame.{steady}
use page_spy_api.LocalManager.{Managed, get_room, create_room, find_room, remove}
use page_spy_api.LocalManager.Size.{
  create, round, start_with, then_call, serve, Bounded, Serves-Bounded,
}
use page_spy_api.LocalManager.Creation.{fresh_room, find_room-create_room}
use page_spy_api.Base.{◌↔◌, ◌⊎◌, ◌≢◌, true, All}
use page_spy_api.LocalManager.Tags.{contains, all_like, like_tags}
use page_spy_api.LocalManager.Tags.Likeness.{Likes, like_tags_iff}
use page_spy_api.Failure.{err, new_room_not_found_error}
use page_spy_api.Samples.{connection}
use page_spy_api.LocalManager.{join_room}
use page_spy_api.LocalManager.Refusal.{missing, join_room-Absent}
use page_spy_api.LocalManager.Removal.{get_room-remove}

abbrev managed : Managed
managed = record {
  manager = record {
    machine = record { status = running_status };
    rooms_map = ("room.local", 0) ∷ [];
    max_room_size = 2;
  };
  world = world;
}

abbrev second : Info
second = record info { address = some (address "next.local") }

find_room-create_room_example :
    (t : Managed) × (create_room env 5 second managed ≡ (ok 3, t))
    × (find_room second t ≡ (ok 3, t))
    × (r : LocalRoom) × (t.world.heap 3 ≡ local r)
    × (steady r.info ≡ steady (fresh_room 5 second).info)
    × (r.basic ≡ new_basic_room)
unfolding lookup
find_room-create_room_example =
    find_room-create_room env 5 second (address "next.local") refl refl managed refl refl

Serves-Bounded_example : Bounded managed (serve env 6 round (serve env 5 (create second) managed))
Serves-Bounded_example =
    Serves-Bounded env managed (serve env 6 round (serve env 5 (create second) managed))
      (omega arith) (then_call 6 round (then_call 5 (create second) start_with))

get_room-remove_example :
    (get_room info (remove env 5 info managed).1 ≡ (ok none, (remove env 5 info managed).1))
    × (c : LocalRoom) × ((remove env 5 info managed).1.world.heap 0 ≡ local c)
    × (is_closed c.basic ≡ true)
    × Without 0 (get_listeners (some (address "room.local")) (remove env 5 info managed).1.world)
unfolding lookup
get_room-remove_example =
    get_room-remove env 5 info (address "room.local") refl managed 0 room refl refl refl refl refl

abbrev android : Dict String
android = ("os", "Android 14") ∷ ("app", "shop") ∷ []

abbrev wanted : Dict String
wanted = ("os", "android") ∷ []

-- unicode.ToLower of the letters of ASCII
abbrev ascii_lower : ℕ → ℕ
ascii_lower c = if leb 65 c && leb c 90 then c + 32 else c

android_wanted : like_tags ascii_lower android wanted ≡ true
unfolding like_tags all_like contains lookup
android_wanted = refl

like_tags_iff_example : (like_tags ascii_lower android wanted ≡ true) ↔ (
    ((android ≡ []) × (wanted ≡ []))
    ⊎ ((android ≢ []) × (wanted ≢ []) × All (Likes ascii_lower android) wanted))
like_tags_iff_example = like_tags_iff ascii_lower android wanted

join_room-Absent_example :
    (message : String) × (join_room env 5 second (connection "c.local") managed
      ≡ (err (new_room_not_found_error message), managed))
unfolding lookup
join_room-Absent_example =
    join_room-Absent env 5 second (connection "c.local") (address "next.local") managed refl
      (missing refl)
