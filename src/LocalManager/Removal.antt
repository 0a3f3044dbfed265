-- ===== src/LocalManager/Removal.antt =====
-- What RemoveRoom leaves.
use page_spy_api.Base.{ℕ, ◌≡◌, refl, ap, ◌∙◌, true, false, none, some, eq_refl}
use page_spy_api.Base.Dict.{lookup, delete, lookup-delete}
use page_spy_api.Failure.{ok}
use page_spy_api.Address.{Address}
use page_spy_api.Message.{Info}
use page_spy_api.World.{Ptr, LocalRoom, local, Env}
use page_spy_api.World.Action.{bind-ok}
use page_spy_api.Rooms.{is_closed}
use page_spy_api.Listeners.{get_listeners}
use page_spy_api.Listeners.Table.{Without}
use page_spy_api.LocalRoom.Lifetime.{close}
use page_spy_api.LocalRoom.Lifetime.Laws.{close-IsClosed}
use page_spy_api.LocalManager.{
  Managed, in_world, on_table, room_id, remove_room, get_room, remove_found, remove,
}
use page_spy_api.LocalManager.Creation.{get_room_lem, room_id_lem}

module _ (env : Env) (now : ℕ) (opt : Info) (a : Address) (address : opt.address ≡ some a)
    (s : Managed) (p : Ptr) (r : LocalRoom) (filed : lookup a.id s.manager.rooms_map ≡ some p)
    (at : s.world.heap p ≡ local r) (room_address : r.info.address ≡ some a) where
  struck : Managed
  struck = record s { manager = record (s.manager) { rooms_map = delete a.id s.manager.rooms_map } }

  remove_room_lem : remove_room p s ≡ (ok tt, struck)
  unfolding remove_room struck
  remove_room_lem =
      bind-ok (room_id p) (λ id. on_table (λ m. (tt, delete id m))) s s a.id
        (room_id_lem p s r a at room_address)
      ∙ unfold on_table in refl

  remove_lem : remove env now opt s ≡ (
    (close env now p "remove" s.world).0,
    record struck { world = (close env now p "remove" s.world).1 },
  )
  unfolding remove remove_found struck
  remove_lem =
      bind-ok (get_room opt) (remove_found env now) s s (some p)
        (get_room_lem opt a s address ∙ ap (λ o. (ok o, s)) filed)
      ∙ bind-ok (remove_room p) (λ _. in_world (close env now p "remove")) s struck tt
          remove_room_lem
      ∙ unfold in_world in refl

  -- RemoveRoom of an open room whose channel `done` is open takes it from the table, so that its
  -- address is free again, and leaves it closed and no longer among the listeners of its address.
  pub get_room-remove :
      is_closed r.basic ≡ false
      → r.basic.done ≡ false
      → (get_room opt (remove env now opt s).1 ≡ (ok none, (remove env now opt s).1))
        × (c : LocalRoom) × ((remove env now opt s).1.world.heap p ≡ local c)
        × (is_closed c.basic ≡ true)
        × Without p (get_listeners (some a) (remove env now opt s).1.world)
  unfolding struck
  get_room-remove open_ fresh =
      let (c, at', closed, done, info, gone) =
        close-IsClosed env now p "remove" s.world r a at open_ fresh room_address in
      rw remove_lem (
        get_room_lem opt a (record struck { world = (close env now p "remove" s.world).1 }) address
            ∙ ap (λ o. (ok o, record struck { world = (close env now p "remove" s.world).1 }))
                (lookup-delete a.id a.id s.manager.rooms_map ∙ rw (eq_refl a.id) refl),
        c,
        at',
        closed,
        gone,
      )
