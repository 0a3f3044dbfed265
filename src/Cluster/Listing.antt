-- ===== src/Cluster/Listing.antt =====
-- room/rpc_remote_manager.go: GetRoomsByGroup over all instances, and ListRooms, over the table of
-- unicode.ToLower.
use page_spy_api.Base.{
  ℕ, suc, ◌≤◌, String, ◌≡◌, refl, ap, ◌∙◌, List, [], ◌∷◌, ◌++◌, ltb, map, All, length, length-map,
  arith, Bool-cases, inl, inr, if◌then◌else◌,
}
use page_spy_api.Base.Dict.{Dict, lookup}
use page_spy_api.Message.{Info}
use page_spy_api.World.{Ptr}
use page_spy_api.World.Action.{Action, ◌>>=◌, pure}
use page_spy_api.LocalRoom.Fields.{this}
use page_spy_api.LocalManager.{Managed, in_world}
use page_spy_api.LocalManager.Tags.{get_rooms_by_tags}
use page_spy_api.Cluster.{Response, empty_response, Cluster, call_client_of}

infos_of : List Ptr → Action Managed (List Info)
unfolding in_world this
infos_of [] = pure []
infos_of (p ∷ ps) = do r ← in_world (this p); rest ← infos_of ps; pure (r.info ∷ rest)

-- The handler GetRoomsByGroup
unfoldable pub respond_rooms : (ℕ → ℕ) → Dict String → Action Managed Response
unfolding get_rooms_by_tags infos_of
respond_rooms to_lower tags = do
  ps ← get_rooms_by_tags to_lower tags
  infos ← infos_of ps
  pure (record empty_response { rooms = infos })

call_listed : String → Action Managed Response → Action Cluster Response
unfolding call_client_of lookup
call_listed m h c = call_client_of m h (lookup m c.machines) c

-- The loop over the clients
gather : (ℕ → ℕ) → Dict String → List String → Action Cluster (List Info)
unfolding call_listed respond_rooms
gather to_lower tags [] = pure []
gather to_lower tags (m ∷ ms) = do
  res ← call_listed m (respond_rooms to_lower tags)
  rest ← gather to_lower tags ms
  pure (res.rooms ++ rest)

names : Dict Managed → List String
names [] = []
names ((m, s) ∷ ms) = m ∷ names ms

-- GetRoomsByGroup
unfoldable pub remote_rooms_by_group : (ℕ → ℕ) → Dict String → Action Cluster (List Info)
unfolding gather names
remote_rooms_by_group to_lower tags c = gather to_lower tags (names c.machines) c

abbrev hide : Info → Info
hide i = record i { secret = "-" }

-- sort.SliceStable, the later room first
abbrev place : Info → List Info → List Info
place i [] = i ∷ []
place i (j ∷ js) =
    let behind = place i js in if ltb i.created_at j.created_at then j ∷ behind else i ∷ j ∷ js

abbrev sort_stable : List Info → List Info
sort_stable [] = []
sort_stable (i ∷ is) = place i (sort_stable is)

unfoldable pub listed : List Info → List Info
listed rooms = sort_stable (map hide rooms)

-- ListRooms
unfoldable pub list_rooms : (ℕ → ℕ) → Dict String → Action Cluster (List Info)
unfolding remote_rooms_by_group listed
list_rooms to_lower tags = do rooms ← remote_rooms_by_group to_lower tags; pure (listed rooms)

-- No room is listed before a later one.
abbrev pub Latest : List Info → Type 0
Latest [] = Unit
Latest (i ∷ is) = All (λ j. j.created_at ≤ i.created_at) is × Latest is

abbrev pub Hidden : Info → Type 0
Hidden i = i.secret ≡ "-"

All-place : (P : Info → Type 0) (i : Info) (is : List Info) → P i → All P is → All P (place i is)
All-place P i [] p ps = (p, tt)
All-place P i (j ∷ js) p ps = elim (Bool-cases (ltb i.created_at j.created_at)) [
  | inl h ↦ rw h (ps.0, All-place P i js p ps.1)
  | inr h ↦ rw h (p, ps)
]

All-weaken :
    (a b : ℕ) (is : List Info)
    → a ≤ b
    → All (λ j. j.created_at ≤ a) is
    → All (λ j. j.created_at ≤ b) is
All-weaken a b [] h k = tt
All-weaken a b (i ∷ is) h k = (omega (arith, h, k.0), All-weaken a b is h k.1)

place-Latest : (i : Info) (is : List Info) → Latest is → Latest (place i is)
place-Latest i [] h = (tt, tt)
place-Latest i (j ∷ js) h = elim (Bool-cases (ltb i.created_at j.created_at)) [
  | inl k ↦
      rw k (
        All-place (λ l. l.created_at ≤ j.created_at) i js (ground arith) h.0,
        place-Latest i js h.1,
      )
  | inr k ↦ rw k ((ground arith, All-weaken j.created_at i.created_at js (ground arith) h.0), h)
]

sort_stable-Latest : (is : List Info) → Latest (sort_stable is)
sort_stable-Latest [] = tt
sort_stable-Latest (i ∷ is) = place-Latest i (sort_stable is) (sort_stable-Latest is)

sort_stable-Hidden : (is : List Info) → All Hidden (sort_stable (map hide is))
sort_stable-Hidden [] = tt
sort_stable-Hidden (i ∷ is) =
    All-place Hidden (hide i) (sort_stable (map hide is)) refl (sort_stable-Hidden is)

length-place : (i : Info) (is : List Info) → length (place i is) ≡ suc (length is)
length-place i [] = refl
length-place i (j ∷ js) = ground (arith, length-place i js)

length-sort_stable : (is : List Info) → length (sort_stable is) ≡ length is
length-sort_stable [] = refl
length-sort_stable (i ∷ is) = length-place i (sort_stable is) ∙ ap suc (length-sort_stable is)

-- The list of rooms has a place for each, shows no secret, and has the latest room first.
pub listed-Latest :
    (rooms : List Info)
    → Latest (listed rooms) × All Hidden (listed rooms) × (length (listed rooms) ≡ length rooms)
unfolding listed
listed-Latest rooms = (
  sort_stable-Latest (map hide rooms),
  sort_stable-Hidden rooms,
  length-sort_stable (map hide rooms) ∙ length-map hide rooms,
)
