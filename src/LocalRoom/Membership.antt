-- ===== src/LocalRoom/Membership.antt =====
-- room/local_room.go: Join and Leave.
pub mod Seats
pub mod Laws
pub mod Tests
use page_spy_api.Base.{
  ℕ, String, Bool, true, false, not, ◌&&◌, Option, none, some, List, [], ◌∷◌, ◌++◌, ◌==◌,
  if◌then◌else◌,
}
use page_spy_api.Base.Text.{concat}
use page_spy_api.Failure.{GoError, Outcome, ok, err, panic, text}
use page_spy_api.Status.{running_status, set_status}
use page_spy_api.Address.{Address, equal}
use page_spy_api.Message.{Connection, Info, new_join_message, new_leave_message}
use page_spy_api.World.{Ptr, LocalRoom, World, Env}
use page_spy_api.World.Action.{Action, Done, ◌>>=◌, ◌>>◌, pure, fail, lift}
use page_spy_api.LocalRoom.Fields.{this, set_this, id_of}
use page_spy_api.LocalRoom.Sending.{send_message_with_timeout}

-- fmt.Errorf with the ids of the connection and of the room
abbrev refused : String → Outcome String → Outcome String → Outcome Done
refused verb (ok c) (ok id) =
    err (text (concat "connection " (concat c (concat verb (concat id " failed")))))
refused verb _ _ = panic

-- The guard that Join and Leave share: !r.Info.Address.Equal(opt.Address)
abbrev guarded : String → Outcome Bool → Outcome String → Outcome String → Outcome Done
guarded verb (ok true) c id = ok tt
guarded verb (ok false) c id = refused verb c id
guarded verb (err e) c id = err e
guarded verb panic c id = panic

abbrev same_room : Option Address → Connection → Info → String → Outcome Done
same_room address connection opt verb =
    guarded verb (equal address opt.address) (id_of connection.address) (id_of opt.address)

abbrev wrong_secret : String → String → GoError
wrong_secret c id = text (
    concat "join failed, password from connection "
      (concat c (concat " of room " (concat id " is invalid"))))

pub set_running : Ptr → Action World Done
unfolding this set_this
set_running p = do
  r ← this p
  set_this p (record r {
    basic = record (r.basic) { machine = set_status running_status r.basic.machine };
  })

-- Join, once its checks have passed
seat : Env → ℕ → Ptr → Connection → LocalRoom → Action World Done
unfolding set_this send_message_with_timeout set_running
seat env now p connection r = do
  set_this p
      (record r { info = record (r.info) { connections = r.info.connections ++ connection ∷ [] } })
  send_message_with_timeout env now p (new_join_message now connection)
  set_running p

join_checked : Env → ℕ → Ptr → Connection → Info → LocalRoom → Action World Done
unfolding seat
join_checked env now p connection opt r = do
  lift (same_room r.info.address connection opt " join room ")
  c ← lift (id_of connection.address)
  id ← lift (id_of opt.address)
  if r.info.use_secret && not (r.info.secret == opt.secret)
      then fail (wrong_secret c id)
      else seat env now p connection r

unfoldable pub join : Env → ℕ → Ptr → Connection → Option Info → Action World Done
unfolding this join_checked
join env now p connection none = pure tt
join env now p connection (some opt) = do r ← this p; join_checked env now p connection opt r

-- The connections whose address is another than the given one.
abbrev keep_unequal :
    Outcome Bool → Connection → Outcome (List Connection) → Outcome (List Connection)
keep_unequal (ok true) c rest = rest
keep_unequal (ok false) c (ok cs) = ok (c ∷ cs)
keep_unequal (ok false) c rest = rest
keep_unequal (err e) c rest = err e
keep_unequal panic c rest = panic

unfoldable pub remove_connection : Option Address → List Connection → Outcome (List Connection)
remove_connection a [] = ok []
remove_connection a (c ∷ cs) = keep_unequal (equal c.address a) c (remove_connection a cs)

unfoldable pub leave : Env → ℕ → Ptr → Connection → Option Info → Action World Done
unfolding this set_this remove_connection send_message_with_timeout
leave env now p connection none = pure tt
leave env now p connection (some opt) = do
  r ← this p
  lift (same_room r.info.address connection opt " leave room ")
  lift (id_of connection.address)
  cs ← lift (remove_connection connection.address r.info.connections)
  set_this p (record r { info = record (r.info) { connections = cs } })
  send_message_with_timeout env now p (new_leave_message now connection)
