-- ===== src/LocalManager/Growth.antt =====
-- By how many rooms an operation of the manager lets its table grow.
use page_spy_api.Base.{
  ℕ, ◌+◌, ◌≤◌, String, ◌≡◌, refl, ap, ◌∙◌, ◌⊎◌, inl, inr, Bool, true, false, Option, none, some,
  List, [], ◌∷◌, arith, length, leb, if◌then◌else◌, Bool-cases,
}
use page_spy_api.Base.Dict.{Dict, length-insert, length-delete, length-values}
use page_spy_api.Failure.{ok}
use page_spy_api.LocalRoom.Lifetime.{should_remove}
use page_spy_api.Rooms.{is_closed}
use page_spy_api.LocalRoom.Membership.{leave}
use page_spy_api.LocalRoom.Fields.{this}
use page_spy_api.Address.{Address}
use page_spy_api.Message.{Connection, Info}
use page_spy_api.World.{Ptr, World, Env}
use page_spy_api.World.Action.{Action, ◌>>=◌, fail, bind-ok, fail-eq}
use page_spy_api.World.Action.Respects.{
  IsPreorder, Respects, Respects-before, Respects-bind, Respects-lift, Respects-pure, Respects-fail,
  Respects-attempt,
}
use page_spy_api.LocalManager.{
  Managed, in_world, on_table, room_id, add_room, remove_room, get_room, get_rooms, is_full,
  open_room, create_unless, create_at, create_room, full_error, not_found, update_found, update_at,
  update_room_option, found_room, find_room, remove_found, remove, join_unless, join_found,
  join_room, remove_if, leave_unless, leave_found, leave_room, tend, sweep, loop,
}

-- At most n rooms more, under the same maximum.
pub record Grows (n : ℕ) (s t : Managed) : Type 0 where
  pub max : t.manager.max_room_size ≡ s.manager.max_room_size
  pub size : length t.manager.rooms_map ≤ length s.manager.rooms_map + n

Grows-plus : (m n : ℕ) (s t u : Managed) → Grows m s t → Grows n t u → Grows (m + n) s u
Grows-plus m n s t u h k = record { max = k.max ∙ h.max; size = omega (arith, h.size, k.size) }

same_size : IsPreorder (Grows 0)
same_size = record {
  reflexive = λ s. record { max = refl; size = omega arith };
  transitive = Grows-plus 0 0;
}

in_world-Grows : {A : Type 0} (m : Action World A) → Respects (Grows 0) (in_world m)
unfolding in_world
in_world-Grows m = record { at = λ s. record { max = refl; size = omega arith } }

on_table-Grows :
    {A : Type 0} (n : ℕ) (f : Dict Ptr → A × Dict Ptr)
    → ((m : Dict Ptr) → length (f m).1 ≤ length m + n)
    → Respects (Grows n) (on_table f)
unfolding on_table
on_table-Grows n f h = record { at = λ s. record { max = refl; size = h s.manager.rooms_map } }

room_id-Grows : (p : Ptr) → Respects (Grows 0) (room_id p)
unfolding room_id
room_id-Grows p = Respects-bind same_size _ _ (in_world-Grows _) λ r. Respects-lift same_size _

Grows-weaken : (m n : ℕ) (s t : Managed) → Grows m s t → Grows (m + n) s t
Grows-weaken m n s t h = record { max = h.max; size = omega (arith, h.size) }

module _ {A B : Type 0} (m n : ℕ) where
  Grows-bind :
      (a : Action Managed A) (f : A → Action Managed B)
      → Respects (Grows m) a
      → ((x : A) → Respects (Grows n) (f x))
      → Respects (Grows (m + n)) (a >>= f)
  Grows-bind a f = Respects-before (Grows-plus m n) (Grows-weaken m n) a f

add_room-Grows : (p : Ptr) → Respects (Grows 1) (add_room p)
unfolding add_room
add_room-Grows p =
    Grows-bind 0 1 _ _ (room_id-Grows p) λ id. on_table-Grows 1 _ λ m. length-insert id p m

remove_room-Grows : (p : Ptr) → Respects (Grows 0) (remove_room p)
unfolding remove_room
remove_room-Grows p =
    Grows-bind 0 0 _ _ (room_id-Grows p)
      λ id. on_table-Grows 0 _ λ m. omega (arith, length-delete id m)

get_room-Grows : (opt : Info) → Respects (Grows 0) (get_room opt)
unfolding get_room
get_room-Grows opt =
    Grows-bind 0 0 _ _ (Respects-lift same_size _) λ id. on_table-Grows 0 _ λ m. omega arith

module _ (env : Env) (now : ℕ) where
  create_unless-Grows :
      (info : Info) (o : Option Ptr) → Respects (Grows 1) (create_unless env now info o)
  unfolding create_unless ◌>>=◌
  create_unless-Grows info (some p) = record {
    at = λ s. Grows-weaken 0 1 s s (same_size.reflexive s);
  }
  create_unless-Grows info none =
      Grows-bind 0 1 _ _ (in_world-Grows (open_room env now info))
        λ p. Grows-bind 1 0 _ _ (add_room-Grows p) λ _. Respects-pure same_size p

  not_found-Grows :
      {A : Type 0} (opt : Info) (rest : String) → Respects (Grows 0) (not_found {A = A} opt rest)
  unfolding not_found
  not_found-Grows opt rest =
      Grows-bind 0 0 _ _ (Respects-lift same_size _) λ id. Respects-fail same_size _

  update_found-Grows : (info : Info) (o : Option Ptr) → Respects (Grows 0) (update_found info o)
  unfolding update_found
  update_found-Grows info (some p) =
      Grows-bind 0 0 _ _ (in_world-Grows _) λ _. Respects-pure same_size p
  update_found-Grows info none =
      Grows-bind 0 0 _ _ (Respects-lift same_size _) λ id. Respects-fail same_size _

  update_at-Grows : (info : Info) (o : Option Address) → Respects (Grows 0) (update_at info o)
  unfolding update_at
  update_at-Grows info none = Respects-fail same_size _
  update_at-Grows info (some a) = Grows-bind 0 0 _ _ (get_room-Grows info) (update_found-Grows info)

  pub update_room_option-Grows : (info : Info) → Respects (Grows 0) (update_room_option info)
  unfolding update_room_option
  update_room_option-Grows info = update_at-Grows info info.address

  found_room-Grows : (info : Info) (o : Option Ptr) → Respects (Grows 0) (found_room info o)
  unfolding found_room
  found_room-Grows info (some p) = Respects-pure same_size p
  found_room-Grows info none = not_found-Grows info _

  pub find_room-Grows : (opt : Info) → Respects (Grows 0) (find_room opt)
  unfolding find_room
  find_room-Grows opt = Grows-bind 0 0 _ _ (get_room-Grows opt) (found_room-Grows opt)

  remove_found-Grows : (o : Option Ptr) → Respects (Grows 0) (remove_found env now o)
  unfolding remove_found
  remove_found-Grows none = Respects-pure same_size tt
  remove_found-Grows (some p) = Grows-bind 0 0 _ _ (remove_room-Grows p) λ _. in_world-Grows _

  pub remove-Grows : (opt : Info) → Respects (Grows 0) (remove env now opt)
  unfolding remove
  remove-Grows opt = Grows-bind 0 0 _ _ (get_room-Grows opt) remove_found-Grows

  join_unless-Grows :
      (opt : Info) (c : Connection) (p : Ptr) (closed : Bool)
      → Respects (Grows 0) (join_unless env now opt c p closed)
  unfolding join_unless
  join_unless-Grows opt c p true = not_found-Grows opt _
  join_unless-Grows opt c p false = in_world-Grows _

  join_found-Grows :
      (opt : Info) (c : Connection) (o : Option Ptr)
      → Respects (Grows 0) (join_found env now opt c o)
  unfolding join_found
  join_found-Grows opt c none = not_found-Grows opt _
  join_found-Grows opt c (some p) =
      Grows-bind 0 0 _ _ (in_world-Grows (this p))
        λ r. join_unless-Grows opt c p (is_closed r.basic)

  pub join_room-Grows : (opt : Info) (c : Connection) → Respects (Grows 0) (join_room env now opt c)
  unfolding join_room
  join_room-Grows opt c = Grows-bind 0 0 _ _ (get_room-Grows opt) (join_found-Grows opt c)

  remove_if-Grows :
      (p : Ptr) (answer : String × Bool) → Respects (Grows 0) (remove_if env now p answer)
  unfolding remove_if
  remove_if-Grows p (code, true) = Grows-bind 0 0 _ _ (remove_room-Grows p) λ _. in_world-Grows _
  remove_if-Grows p (code, false) = Respects-pure same_size tt

  leave_unless-Grows :
      (opt : Info) (c : Connection) (p : Ptr) (closed : Bool)
      → Respects (Grows 0) (leave_unless env now opt c p closed)
  unfolding leave_unless
  leave_unless-Grows opt c p true = Respects-pure same_size tt
  leave_unless-Grows opt c p false =
      Grows-bind 0 0 _ _ (Respects-attempt _ (in_world-Grows (leave env now p c (some opt)))) λ _.
        Grows-bind 0 0 _ _ (in_world-Grows (should_remove now p)) λ answer. remove_if-Grows p answer

  leave_found-Grows :
      (opt : Info) (c : Connection) (o : Option Ptr)
      → Respects (Grows 0) (leave_found env now opt c o)
  unfolding leave_found
  leave_found-Grows opt c none = not_found-Grows opt _
  leave_found-Grows opt c (some p) =
      Grows-bind 0 0 _ _ (in_world-Grows (this p))
        λ r. leave_unless-Grows opt c p (is_closed r.basic)

  pub leave_room-Grows :
      (opt : Info) (c : Connection) → Respects (Grows 0) (leave_room env now opt c)
  unfolding leave_room
  leave_room-Grows opt c = Grows-bind 0 0 _ _ (get_room-Grows opt) (leave_found-Grows opt c)

  tend-Grows : (p : Ptr) (answer : String × Bool) → Respects (Grows 0) (tend env now p answer)
  unfolding tend
  tend-Grows p (code, false) = Respects-pure same_size tt
  tend-Grows p (code, true) = Grows-bind 0 0 _ _ (remove_room-Grows p) λ _.
      Grows-bind 0 0 _ _ (Respects-attempt _ (in_world-Grows _)) λ _. Respects-pure same_size tt

  sweep-Grows : (ps : List Ptr) → Respects (Grows 0) (sweep env now ps)
  unfolding sweep
  sweep-Grows [] = Respects-pure same_size tt
  sweep-Grows (p ∷ ps) =
      Grows-bind 0 0 _ _ (in_world-Grows (should_remove now p))
        λ answer. Grows-bind 0 0 _ _ (tend-Grows p answer) λ _. sweep-Grows ps

  get_rooms-Grows : Respects (Grows 0) get_rooms
  unfolding get_rooms
  get_rooms-Grows = on_table-Grows 0 _ λ m. omega arith

  pub loop-Grows : Respects (Grows 0) (loop env now)
  unfolding loop
  loop-Grows = Grows-bind 0 0 _ _ get_rooms-Grows sweep-Grows

  create_at-Grows :
      (info : Info) (o : Option Address) → Respects (Grows 1) (create_at env now info o)
  unfolding create_at ◌>>=◌
  create_at-Grows info none = record { at = λ s. Grows-weaken 0 1 s s (same_size.reflexive s) }
  create_at-Grows info (some a) =
      Grows-bind 0 1 _ _ (get_room-Grows info) (create_unless-Grows info)

  -- What the test of CreateRoom finds.
  pub is_full_lem :
      (s : Managed) → is_full s ≡ (ok (leb s.manager.max_room_size (length s.manager.rooms_map)), s)
  unfolding is_full ◌>>=◌
  is_full_lem s = rw (length-values s.manager.rooms_map) refl

  pub create_room_lem :
      (info : Info) (s : Managed) (full : Bool)
      → leb s.manager.max_room_size (length s.manager.rooms_map) ≡ full
      → create_room env now info s
        ≡ (if full then fail full_error else create_at env now info info.address) s
  unfolding create_room
  create_room_lem info s full h =
      bind-ok is_full (λ b. if b then fail full_error else create_at env now info info.address) s s
        full (is_full_lem s ∙ ap (λ b. (ok b, s)) h)

  pub created :
      (info : Info) (s : Managed)
      → Grows 0 s (create_room env now info s).1
        ⊎ (Grows 1 s (create_room env now info s).1
            × (leb s.manager.max_room_size (length s.manager.rooms_map) ≡ false))
  created info s = elim (Bool-cases (leb s.manager.max_room_size (length s.manager.rooms_map))) [
    | inl full ↦
        inl (rw (create_room_lem info s true full ∙ fail-eq full_error s) (same_size.reflexive s))
    | inr room ↦
        inr
          (rw (create_room_lem info s false room) ((create_at-Grows info info.address).at s), room)
  ]
