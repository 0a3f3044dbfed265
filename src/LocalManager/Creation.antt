-- ===== src/LocalManager/Creation.antt =====
-- What CreateRoom leaves, and that GetRoom finds it.
use page_spy_api.Base.{
  ℕ, suc, String, ◌≡◌, refl, ap, subst, ◌∙◌, Bool, false, ◌&&◌, Option, none, some, [], ◌==◌,
  eq_refl, length, leb,
}
use page_spy_api.Base.Dict.{lookup, insert, lookup-insert}
use page_spy_api.Failure.{Outcome, ok}
use page_spy_api.Address.{Address}
use page_spy_api.Message.{Info, new_start_message}
use page_spy_api.World.{Ptr, LocalRoom, local, World, Env, write, write_self}
use page_spy_api.World.Action.{Action, ◌>>=◌, ◌>>◌, pure, lift, bind-ok, bind-lift}
use page_spy_api.Listeners
use page_spy_api.Rooms.{new_basic_room}
use page_spy_api.LocalRoom.Fields.{this, this_lem, id_of, checked_room, new_local_room}
use page_spy_api.LocalRoom.Sending.{start, send_message_with_timeout}
use page_spy_api.LocalRoom.Sending.Frame.{
  steady, SteadyObject, steady_room, send_message_with_timeout-Steady,
}
use page_spy_api.LocalRoom.Sending.Quiet.{start_lem}
use page_spy_api.LocalManager.{
  Managed, in_world, on_table, room_id, add_room, get_room, allocate, open_room, create_new,
  create_unless, create_at, create_room, found_room, find_room,
}
use page_spy_api.LocalManager.Growth.{create_room_lem}

-- What NewLocalRoom makes of the information.
abbrev pub fresh_room : ℕ → Info → LocalRoom
fresh_room now opt = record {
  basic = new_basic_room;
  close_reason = "unknown";
  close_code = "unknown";
  info = record opt { connections = []; created_at = now; active_at = now };
  messages = [];
}

id_of_lem : (o : Option Address) (b : Address) → o ≡ some b → id_of o ≡ ok b.id
id_of_lem o b f = rw f

new_local_room_lem :
    (now : ℕ) (opt : Info) (a : Address)
    → opt.address ≡ some a
    → (opt.use_secret && opt.secret == "") ≡ false
    → new_local_room now opt ≡ ok (fresh_room now opt)
unfolding new_local_room
new_local_room_lem now opt a e h = checked (id_of opt.address) _ (id_of_lem opt.address a e) h
  where
    checked :
        (o : Outcome String) (empty : Bool)
        → o ≡ ok a.id
        → empty ≡ false
        → checked_room now opt o empty ≡ ok (fresh_room now opt)
    checked o empty f g = rw (f, g) refl

pub lift_id :
    {A : Type 0} (o : Option Address) (a : Address) (f : String → Action Managed A) (t : Managed)
    → o ≡ some a
    → (lift (id_of o) >>= f) t ≡ f a.id t
lift_id o a f t e = rw e (bind-lift a.id f t)

pub get_room_lem :
    (info : Info) (a : Address) (t : Managed)
    → info.address ≡ some a
    → get_room info t ≡ (ok (lookup a.id t.manager.rooms_map), t)
unfolding get_room
get_room_lem info a t e = lift_id info.address a (λ id. on_table (λ m. (lookup id m, m))) t e

pub room_id_lem :
    (p : Ptr) (t : Managed) (r : LocalRoom) (a : Address)
    → t.world.heap p ≡ local r
    → r.info.address ≡ some a
    → room_id p t ≡ (ok a.id, t)
unfolding room_id
room_id_lem p t r a e h =
    bind-ok (in_world (this p)) (λ s. lift (id_of s.info.address)) t t r
      (unfold in_world in ap (λ x. (x.0, record t { world = x.1 })) (this_lem p t.world r e))
    ∙ (unfold ◌>>=◌ in ap (λ o. (o, t)) (id_of_lem r.info.address a h))

module _ (env : Env) (now : ℕ) (info : Info) (a : Address) (address : info.address ≡ some a)
    (secret : (info.use_secret && info.secret == "") ≡ false) where
  placed : World → World
  placed w = record w {
    heap = write w.next (local (fresh_room now info)) w.heap;
    next = suc w.next;
  }

  unfoldable pub started : World → World
  unfolding placed
  started w =
      (send_message_with_timeout env now w.next (new_start_message now a)
        (Listeners.listen (some a) w.next (placed w)).1).1

  -- The room that Start leaves.
  pub record Opened (w : World) : Type 0 where
    pub room : LocalRoom
    pub at : (started w).heap w.next ≡ local room
    pub same_info : steady room.info ≡ steady (fresh_room now info).info
    pub same_basic : room.basic ≡ new_basic_room

  open_room_lem : (w : World) → open_room env now info w ≡ (ok w.next, started w)
  unfolding open_room placed started
  open_room_lem w = rw (new_local_room_lem now info a address secret) (
      bind-lift (fresh_room now info) (λ r. allocate (local r) >>= λ p. start env now p >> pure p) w
      ∙ bind-ok (allocate (local (fresh_room now info))) (λ p. start env now p >> pure p) w
          (placed w) w.next refl
      ∙ bind-ok (start env now w.next) (λ _. pure w.next) (placed w) (started w) tt
          (start_lem env now w.next a (placed w) (fresh_room now info) (write_self w.next _ w.heap)
            address refl))

  opened : (w : World) → Opened w
  unfolding Listeners.listen placed started
  opened w =
      let r = fresh_room now info in
      let (s, e, i, b, x, y) = steady_room r ((started w).heap w.next) (
        subst (λ o. SteadyObject o ((started w).heap w.next)) (write_self w.next (local r) w.heap)
          (((send_message_with_timeout-Steady env now w.next (new_start_message now a)).at
              (Listeners.listen (some a) w.next (placed w)).1).at
            w.next)) in
      record { room = s; at = e; same_info = i; same_basic = b }

  module _ (s : Managed) (new : lookup a.id s.manager.rooms_map ≡ none) where
    -- The manager with the room that was opened.
    enrolled : Managed
    enrolled = record {
      manager = record (s.manager) { rooms_map = insert a.id s.world.next s.manager.rooms_map };
      world = started s.world;
    }

    filed :
        (t : World) (r : LocalRoom)
        → t.heap s.world.next ≡ local r
        → r.info.address ≡ some a
        → add_room s.world.next (record s { world = t }) ≡ (
          ok tt,
          record s {
            manager = record (s.manager) {
              rooms_map = insert a.id s.world.next s.manager.rooms_map;
            };
            world = t;
          },
        )
    unfolding add_room
    filed t r e h =
        bind-ok (room_id s.world.next) (λ id. on_table (λ m. (tt, insert id s.world.next m)))
          (record s { world = t }) (record s { world = t }) a.id
          (room_id_lem s.world.next (record s { world = t }) r a e h)
        ∙ unfold on_table in refl

    create_new_lem : create_new env now info s ≡ (ok s.world.next, enrolled)
    unfolding create_new enrolled
    create_new_lem =
        let o = opened s.world in
        bind-ok (in_world (open_room env now info)) (λ p. add_room p >> pure p) s
          (record s { world = started s.world }) s.world.next
          (unfold in_world in ap (λ x. (x.0, record s { world = x.1 })) (open_room_lem s.world))
        ∙ bind-ok (add_room s.world.next) (λ _. pure s.world.next)
            (record s { world = started s.world }) enrolled tt
            (filed (started s.world) o.room o.at
              (ap {A = Info} (λ i. i.address) o.same_info ∙ address))

    -- Creating a room under an address that has none.
    create_at_lem : create_at env now info (some a) s ≡ (ok s.world.next, enrolled)
    unfolding create_at
    create_at_lem =
        bind-ok (get_room info) (create_unless env now info) s s none
          (get_room_lem info a s address ∙ ap (λ o. (ok o, s)) new)
        ∙ create_new_lem

    -- CreateRoom, below the maximum of rooms, of an address that no room has, with a secret if the
    -- room uses one, returns a new room with the information and no connections, and GetRoom then
    -- finds that room.
    pub find_room-create_room :
        leb s.manager.max_room_size (length s.manager.rooms_map) ≡ false
        → (t : Managed) × (create_room env now info s ≡ (ok s.world.next, t))
          × (find_room info t ≡ (ok s.world.next, t))
          × (r : LocalRoom) × (t.world.heap s.world.next ≡ local r)
          × (steady r.info ≡ steady (fresh_room now info).info)
          × (r.basic ≡ new_basic_room)
    unfolding enrolled
    find_room-create_room space =
        let o = opened s.world in
        (
          enrolled,
          create_room_lem env now info s false space
              ∙ ap (λ x. create_at env now info x s) address
              ∙ create_at_lem,
          found,
          o.room,
          o.at,
          o.same_info,
          o.same_basic,
        )
      where
        listed : lookup a.id enrolled.manager.rooms_map ≡ some s.world.next
        listed = lookup-insert a.id a.id s.world.next s.manager.rooms_map ∙ rw (eq_refl a.id) refl

        found : find_room info enrolled ≡ (ok s.world.next, enrolled)
        found =
            unfold find_room in
            (bind-ok (get_room info) (found_room info) enrolled enrolled (some s.world.next)
                (get_room_lem info a enrolled address ∙ ap (λ o. (ok o, enrolled)) listed)
              ∙ unfold found_room in refl)
