-- ===== src/LocalManager/Size.antt =====
-- How many rooms a manager holds.
use page_spy_api.Base.{ℕ, ◌≤◌, ◌≡◌, refl, ◌∙◌, inl, inr, arith, length}
use page_spy_api.Message.{Connection, Info}
use page_spy_api.World.{Env}
use page_spy_api.LocalManager.{
  Managed, create_room, update_room_option, find_room, remove, join_room, leave_room, loop,
}
use page_spy_api.LocalManager.Growth.{
  Grows, created, update_room_option-Grows, find_room-Grows, remove-Grows, join_room-Grows,
  leave_room-Grows, loop-Grows,
}

-- The calls that a manager serves.
pub data Call : Type 0 where
  create : Info → Call
  update_option : Info → Call
  get : Info → Call
  drop : Info → Call
  join_by : Info → Connection → Call
  leave_by : Info → Connection → Call
  round : Call

unfoldable pub serve : Env → ℕ → Call → Managed → Managed
serve env now (create info) s = (create_room env now info s).1
serve env now (update_option info) s = (update_room_option info s).1
serve env now (get opt) s = (find_room opt s).1
serve env now (drop opt) s = (remove env now opt s).1
serve env now (join_by opt c) s = (join_room env now opt c s).1
serve env now (leave_by opt c) s = (leave_room env now opt c s).1
serve env now round s = (loop env now s).1

-- The states that calls lead to, each at a time of its own.
pub data Serves (env : Env) : Managed → Managed → Type 0 where
  start_with : {s : Managed} → Serves env s s
  then_call :
      {s t : Managed} (now : ℕ) (c : Call) → Serves env s t → Serves env s (serve env now c t)

unfoldable pub Bounded : Managed → Managed → Type 0
Bounded s t =
    (t.manager.max_room_size ≡ s.manager.max_room_size)
    × (length t.manager.rooms_map ≤ t.manager.max_room_size)

grown_none :
    (s t : Managed)
    → Grows 0 s t
    → length s.manager.rooms_map ≤ s.manager.max_room_size
    → Bounded s t
unfolding Bounded
grown_none s t g h = (g.max, rw g.max (omega (arith, g.size, h)))

serve-Bounded :
    (env : Env) (now : ℕ) (c : Call) (s : Managed)
    → length s.manager.rooms_map ≤ s.manager.max_room_size
    → Bounded s (serve env now c s)
unfolding serve Bounded
serve-Bounded env now (create info) s h = elim (created env now info s) [
  | inl g ↦ grown_none s _ g h
  | inr (g, room) ↦ (g.max, rw g.max (ground (arith, g.size)))
]
serve-Bounded env now (update_option info) s h =
    grown_none s _ ((update_room_option-Grows env now info).at s) h
serve-Bounded env now (get opt) s h = grown_none s _ ((find_room-Grows env now opt).at s) h
serve-Bounded env now (drop opt) s h = grown_none s _ ((remove-Grows env now opt).at s) h
serve-Bounded env now (join_by opt c) s h = grown_none s _ ((join_room-Grows env now opt c).at s) h
serve-Bounded env now (leave_by opt c) s h =
    grown_none s _ ((leave_room-Grows env now opt c).at s) h
serve-Bounded env now round s h = grown_none s _ ((loop-Grows env now).at s) h

-- A manager that holds at most its maximum of rooms holds at most that many after any sequence of
-- calls, and the maximum stays.
pub Serves-Bounded :
    (env : Env) (s t : Managed)
    → length s.manager.rooms_map ≤ s.manager.max_room_size
    → Serves env s t
    → Bounded s t
unfolding Bounded
Serves-Bounded env s _ h start_with = (refl, h)
Serves-Bounded env s _ h (then_call {t = t} now c calls) =
    let (max, size) = Serves-Bounded env s t h calls in
    let (max', size') = serve-Bounded env now c t size in (max' ∙ max, size')
