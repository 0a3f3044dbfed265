-- ===== src/LocalManager/Refusal.antt =====
-- What JoinRoom answers when there is no open room to join.
use page_spy_api.Base.{ℕ, String, ◌≡◌, ap, ◌∙◌, true, none, some}
use page_spy_api.Base.Dict.{lookup}
use page_spy_api.Base.Text.{concat}
use page_spy_api.Failure.{ok, err, new_room_not_found_error}
use page_spy_api.Address.{Address}
use page_spy_api.Message.{Connection, Info}
use page_spy_api.World.{Ptr, LocalRoom, local, Env}
use page_spy_api.World.Action.{Done, fail, fail-eq, bind-ok}
use page_spy_api.Rooms.{is_closed}
use page_spy_api.LocalRoom.Fields.{this, this_lem}
use page_spy_api.LocalManager.{
  Managed, in_world, get_room, not_found, join_found, join_unless, join_room,
}
use page_spy_api.LocalManager.Creation.{lift_id, get_room_lem}

not_found_lem :
    (opt : Info) (a : Address) (rest : String) (s : Managed)
    → opt.address ≡ some a
    → not_found {A = Done} opt rest s
      ≡ (err (new_room_not_found_error (concat "room " (concat a.id rest))), s)
unfolding not_found
not_found_lem opt a rest s e =
    lift_id opt.address a (λ id. fail (new_room_not_found_error (concat "room " (concat id rest))))
      s e
    ∙ fail-eq (new_room_not_found_error (concat "room " (concat a.id rest))) s

-- The table has no room of this address that is open.
pub data Absent (a : Address) (s : Managed) : Type 0 where
  missing : lookup a.id s.manager.rooms_map ≡ none → Absent a s
  ended :
      (p : Ptr) (r : LocalRoom)
      → lookup a.id s.manager.rooms_map ≡ some p
      → s.world.heap p ≡ local r
      → is_closed r.basic ≡ true
      → Absent a s

-- JoinRoom of an address whose room is missing or closed is refused with the code of a room that was
-- not found, and nothing changes.
pub join_room-Absent :
    (env : Env) (now : ℕ) (opt : Info) (c : Connection) (a : Address) (s : Managed)
    → opt.address ≡ some a
    → Absent a s
    → (message : String) × (join_room env now opt c s ≡ (err (new_room_not_found_error message), s))
unfolding join_room join_found
join_room-Absent env now opt c a s e (missing h) = (
  concat "room " (concat a.id " not found, join failed"),
  bind-ok (get_room opt) (join_found env now opt c) s s none
        (get_room_lem opt a s e ∙ ap (λ o. (ok o, s)) h)
      ∙ not_found_lem opt a " not found, join failed" s e,
)
join_room-Absent env now opt c a s e (ended p r h at closed) = (
  concat "room " (concat a.id " had been closed, join failed"),
  bind-ok (get_room opt) (join_found env now opt c) s s (some p)
        (get_room_lem opt a s e ∙ ap (λ o. (ok o, s)) h)
      ∙ bind-ok (in_world (this p)) (λ r. join_unless env now opt c p (is_closed r.basic)) s s r
          (unfold in_world in ap (λ x. (x.0, record s { world = x.1 })) (this_lem p s.world r at))
      ∙ ap (λ b. join_unless env now opt c p b s) closed
      ∙ (unfold join_unless in not_found_lem opt a " had been closed, join failed" s e),
)
