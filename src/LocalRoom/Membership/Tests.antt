-- ===== src/LocalRoom/Membership/Tests.antt =====
-- A third connection that comes and goes.
use page_spy_api.Base.{◌≡◌, refl, inr, some}
use page_spy_api.Failure.{GoError, err}
use page_spy_api.Message.{Connection, Info}
use page_spy_api.World.{LocalRoom, local}
use page_spy_api.Samples.{address, connection, info, room, world, env}
use page_spy_api.LocalRoom.Sending.Frame.{steady}
use page_spy_api.LocalRoom.Membership.{join, leave}
use page_spy_api.LocalRoom.Membership.Laws.{join_refused, leave-join}

abbrev guest : Connection
guest = connection "c.local"

abbrev stranger : Info
stranger = record info { secret = "guess" }

join_refused_example : (e : GoError) × (join env 5 0 guest (some stranger) world ≡ (err e, world))
join_refused_example =
    join_refused env 5 0 guest stranger world room (address "room.local") refl refl
      (record {
        own = address "c.local";
        own_address = refl;
        asked = address "room.local";
        asked_address = refl;
      })
      (inr (refl, refl))

leave-join_example :
    (s : LocalRoom) × ((leave env 9 0 guest
          (some info)
          (join env 5 0 guest (some info) world).1).1.heap
        0
      ≡ local s)
    × (steady s.info ≡ steady room.info)
leave-join_example =
    leave-join env 5 9 0 guest info world room (address "room.local")
      (record {
        own = address "c.local";
        own_address = refl;
        asked = address "room.local";
        asked_address = refl;
      })
      refl refl refl refl ((address "a.local", refl, refl), ((address "b.local", refl, refl), tt))
