-- ===== src/LocalRoom/Fields.antt =====
-- room/local_room.go: NewLocalRoom and the fields behind a receiver.
use page_spy_api.Base.{ℕ, String, Bool, true, false, ◌≡◌, refl, ◌&&◌, Option, none, some, [], ◌==◌}
use page_spy_api.Base.Text.{concat}
use page_spy_api.Failure.{Outcome, ok, err, panic, text}
use page_spy_api.Address.{Address}
use page_spy_api.Message.{Info, update}
use page_spy_api.World.{Ptr, LocalRoom, Object, local, World, write}
use page_spy_api.World.Action.{Action, Done, ◌>>=◌}
use page_spy_api.Rooms.{new_basic_room}

-- a.ID, of a pointer that may be nil
abbrev pub id_of : Option Address → Outcome String
id_of none = panic
id_of (some a) = ok a.id

-- NewLocalRoom, with the address's id, which the logger reads, and the test of the secret
abbrev pub checked_room : ℕ → Info → Outcome String → Bool → Outcome LocalRoom
checked_room now opt (ok id) true =
    err (text (concat "room " (concat id " use secret but secret is empty")))
checked_room now opt (ok id) false = ok (record {
  basic = new_basic_room;
  close_reason = "unknown";
  close_code = "unknown";
  info = record opt { connections = []; created_at = now; active_at = now };
  messages = [];
})
checked_room now opt (err e) empty = err e
checked_room now opt panic empty = panic

unfoldable pub new_local_room : ℕ → Info → Outcome LocalRoom
new_local_room now opt =
    checked_room now opt (id_of opt.address) (opt.use_secret && opt.secret == "")

abbrev as_local : Object → Outcome LocalRoom
as_local (local r) = ok r
as_local _ = panic

-- The fields behind the receiver.
unfoldable pub this : Ptr → Action World LocalRoom
this p w = (as_local (w.heap p), w)

unfoldable pub set_this : Ptr → LocalRoom → Action World Done
set_this p r w = (ok tt, record w { heap = write p (local r) w.heap })

-- Ping, and the same assignment to ActiveAt elsewhere
unfoldable pub ping : ℕ → Ptr → Action World Done
unfolding this set_this
ping now p = do r ← this p; set_this p (record r { info = record (r.info) { active_at = now } })

abbrev pub deref : Option Address → Outcome Address
deref none = panic
deref (some a) = ok a

-- UpdateInfo
unfoldable pub update_info : Ptr → Info → Action World Done
unfolding this set_this
update_info p info = do r ← this p; set_this p (record r { info = update r.info info })

pub this_lem : (p : Ptr) (w : World) (r : LocalRoom) → w.heap p ≡ local r → this p w ≡ (ok r, w)
unfolding this
this_lem p w r e = rw e

pub set_this_lem :
    (p : Ptr) (r : LocalRoom) (w : World)
    → set_this p r w ≡ (ok tt, record w { heap = write p (local r) w.heap })
unfolding set_this
set_this_lem p r w = refl
