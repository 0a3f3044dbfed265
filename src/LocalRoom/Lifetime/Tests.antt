-- ===== src/LocalRoom/Lifetime/Tests.antt =====
-- A room that is open, idle and then closed.
use page_spy_api.Base.{String, ◌≡◌, refl, ◌↔◌, Bool, true, some}
use page_spy_api.Failure.{ok}
use page_spy_api.World.{LocalRoom, local}
use page_spy_api.Rooms.{is_closed}
use page_spy_api.Listeners.{get_listeners}
use page_spy_api.Listeners.Table.{Without}
use page_spy_api.Samples.{address, room, world, env}
use page_spy_api.LocalRoom.Sending.Frame.{steady}
use page_spy_api.LocalRoom.Lifetime.{should_remove, close}
use page_spy_api.LocalRoom.Lifetime.Laws.{Expired, should_remove-Expired, close-IsClosed}

should_remove-Expired_example :
    (code : String) × (b : Bool) × ((should_remove 300001 0 world).0 ≡ ok (code, b))
    × ((b ≡ true) ↔ Expired 300001 room)
should_remove-Expired_example = should_remove-Expired 300001 0 world room refl refl

close-IsClosed_example :
    (s : LocalRoom) × ((close env 7 0 "remove" world).1.heap 0 ≡ local s)
    × (is_closed s.basic ≡ true)
    × (s.basic.done ≡ true)
    × (steady s.info ≡ steady room.info)
    × Without 0 (get_listeners (some (address "room.local")) (close env 7 0 "remove" world).1)
close-IsClosed_example =
    close-IsClosed env 7 0 "remove" world room (address "room.local") refl refl refl refl
