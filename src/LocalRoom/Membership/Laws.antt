-- ===== src/LocalRoom/Membership/Laws.antt =====
-- Who sits in a room after Join and Leave.
use page_spy_api.Base.{
  ℕ, String, ◌≡◌, ◌⊎◌, inl, inr, refl, sym, ap, subst, ◌∙◌, Bool, true, false, not, ◌&&◌, List, [],
  ◌∷◌, ◌++◌, Option, some, All, if◌then◌else◌, Bool-cases, ◌==◌, eq_refl,
}
use page_spy_api.Base.Text.{concat}
use page_spy_api.Failure.{GoError, Outcome, ok, err, text}
use page_spy_api.Status.{running_status, set_status}
use page_spy_api.Address.{Address, equal}
use page_spy_api.Message.{Connection, Info, new_join_message, new_leave_message}
use page_spy_api.World.{Ptr, LocalRoom, local, World, Env}
use page_spy_api.World.Action.{fail, bind-ok, bind-lift, lift-err, fail-eq}
use page_spy_api.LocalRoom.Fields.{this, this_lem, id_of}
use page_spy_api.LocalRoom.Sending.Frame.{steady}
use page_spy_api.LocalRoom.Membership.{
  same_room, guarded, wrong_secret, seat, join_checked, join, remove_connection, keep_unequal,
  leave,
}
use page_spy_api.LocalRoom.Membership.Seats.{Left, announced, announced_running}

-- A connection with an address asks for a room by an address.
pub record Request (c : Connection) (opt : Info) : Type 0 where
  pub own : Address
  pub own_address : c.address ≡ some own
  pub asked : Address
  pub asked_address : opt.address ≡ some asked

equal_lem :
    (o q : Option Address) (a b : Address) (t : Bool)
    → o ≡ some a
    → q ≡ some b
    → (a.id == b.id) ≡ t
    → equal o q ≡ ok t
unfolding equal
equal_lem o q a b t e f h = rw (e, f, h)

ap₃ :
    {A B C D : Type 0} (f : A → B → C → D) {a a' : A} {b b' : B} {c c' : C}
    → a ≡ a'
    → b ≡ b'
    → c ≡ c'
    → f a b c ≡ f a' b' c'
ap₃ f e g h = rw (e, g, h)

id_lem : (o : Option Address) (a : Address) → o ≡ some a → id_of o ≡ ok a.id
id_lem o a e = rw e

module _ (env : Env) (now : ℕ) (p : Ptr) (c : Connection) (opt : Info) (w : World) (r : LocalRoom)
    (a : Address) (at : w.heap p ≡ local r) (address : r.info.address ≡ some a)
    (q : Request c opt) where
  -- The guard passes exactly if the addresses have one id.
  guard_lem :
      (verb : String) (t : Bool)
      → (a.id == q.asked.id) ≡ t
      → same_room r.info.address c opt verb ≡ guarded verb (ok t) (ok q.own.id) (ok q.asked.id)
  guard_lem verb t h =
      ap₃ (guarded verb)
        (equal_lem r.info.address opt.address a q.asked t address q.asked_address h)
        (id_lem c.address q.own q.own_address) (id_lem opt.address q.asked q.asked_address)

  join_lem : join env now p c (some opt) w ≡ join_checked env now p c opt r w
  unfolding join
  join_lem = bind-ok (this p) _ w w r (this_lem p w r at)

  -- What Join does with a connection that asks for this room.
  checked_lem :
      (t : Bool)
      → (a.id == q.asked.id) ≡ true
      → (r.info.use_secret && not (r.info.secret == opt.secret)) ≡ t
      → join env now p c (some opt) w
        ≡ (if t then fail (wrong_secret q.own.id q.asked.id) else seat env now p c r) w
  checked_lem t same h =
      join_lem
      ∙ (unfold join_checked in
          rw (guard_lem " join room " true same) (
            bind-lift tt _ w
            ∙ rw (id_lem c.address q.own q.own_address) (
                bind-lift q.own.id _ w
                ∙ rw (id_lem opt.address q.asked q.asked_address)
                    (bind-lift q.asked.id _ w ∙ rw h refl))))

  other_room :
      (a.id == q.asked.id) ≡ false → (e : GoError) × (join env now p c (some opt) w ≡ (err e, w))
  other_room h = (
    text (
        concat "connection "
          (concat q.own.id (concat " join room " (concat q.asked.id " failed")))),
    join_lem ∙ (unfold join_checked in rw (guard_lem " join room " false h) (lift-err _ _ w)),
  )

  -- A connection that asks for another room, or whose secret is wrong, is refused with an error, and
  -- nothing changes.
  pub join_refused :
      ((a.id == q.asked.id) ≡ false)
        ⊎ ((r.info.use_secret ≡ true) × ((r.info.secret == opt.secret) ≡ false))
      → (e : GoError) × (join env now p c (some opt) w ≡ (err e, w))
  join_refused (inl h) = other_room h
  join_refused (inr (u, h)) = elim (Bool-cases (a.id == q.asked.id)) [
    | inl same ↦
        (wrong_secret q.own.id q.asked.id, checked_lem true same (rw (u, h) refl) ∙ fail-eq _ w)
    | inr other ↦ other_room other
  ]

  -- A connection that asks for this room, with its secret if it uses one, ends up as the last of the
  -- connections, and the room runs, unless telling the others panics.
  pub join_seated :
      (a.id == q.asked.id) ≡ true
      → (r.info.use_secret && not (r.info.secret == opt.secret)) ≡ false
      → Left p r
          (r.info.connections ++ c ∷ [])
          (set_status running_status r.basic.machine)
          (join env now p c (some opt) w)
  unfolding seat
  join_seated same open_to =
      subst (Left p r (r.info.connections ++ c ∷ []) (set_status running_status r.basic.machine))
        (sym (checked_lem false same open_to))
        (announced_running env now p (new_join_message now c) w r (r.info.connections ++ c ∷ []))

  -- A connection that asks to leave this room takes the connections of its address away.
  pub leave-Left :
      (cs : List Connection)
      → (a.id == q.asked.id) ≡ true
      → remove_connection c.address r.info.connections ≡ ok cs
      → Left p r cs r.basic.machine (leave env now p c (some opt) w)
  unfolding leave
  leave-Left cs same removed =
      subst (Left p r cs r.basic.machine)
        (sym (
          bind-ok (this p) _ w w r (this_lem p w r at)
          ∙ rw (guard_lem " leave room " true same) (
              bind-lift tt _ w
              ∙ rw (id_lem c.address q.own q.own_address)
                  (bind-lift q.own.id _ w ∙ rw removed (bind-lift cs _ w)))))
        (announced env now p (new_leave_message now c) w r cs)

-- A connection with an address that is another than this one.
abbrev pub Stranger : Address → Connection → Type 0
Stranger a d = (b : Address) × (d.address ≡ some b) × ((b.id == a.id) ≡ false)

keep_unequal_lem :
    (o : Outcome Bool) (t : Bool) (d : Connection) (rest : Outcome (List Connection))
    (cs : List Connection) (u : Outcome (List Connection))
    → o ≡ ok t
    → rest ≡ ok cs
    → keep_unequal (ok t) d (ok cs) ≡ u
    → keep_unequal o d rest ≡ u
keep_unequal_lem o t d rest cs u e f g = rw (e, f) g

pub remove_last :
    (a : Address) (c : Connection) (cs : List Connection)
    → c.address ≡ some a
    → All (Stranger a) cs
    → remove_connection c.address (cs ++ c ∷ []) ≡ ok cs
unfolding remove_connection
remove_last a c [] e h =
    keep_unequal_lem _ true c _ [] _ (equal_lem c.address c.address a a true e e (eq_refl a.id))
      refl refl
remove_last a c (d ∷ cs) e ((b, f, n), h) =
    keep_unequal_lem _ false d _ cs _ (equal_lem d.address c.address b a false f e n)
      (remove_last a c cs e h) refl

-- A connection that joins a room in which nobody has its address, and leaves it later, leaves the
-- room as it found it, but for the time of its last activity.
pub leave-join :
    (env : Env) (now later : ℕ) (p : Ptr) (c : Connection) (opt : Info) (w : World) (r : LocalRoom)
    (a : Address) (q : Request c opt)
    → w.heap p ≡ local r
    → r.info.address ≡ some a
    → (a.id == q.asked.id) ≡ true
    → (r.info.use_secret && not (r.info.secret == opt.secret)) ≡ false
    → All (Stranger q.own) r.info.connections
    → (s : LocalRoom) × ((leave env later p c (some opt) (join env now p c (some opt) w).1).1.heap p
        ≡ local s)
      × (steady s.info ≡ steady r.info)
leave-join env now later p c opt w r a q at address same open_to strangers =
    let j = join_seated env now p c opt w r a at address q same open_to in
    let seats = ap (λ i. i.connections) j.same_info in
    let l =
      leave-Left env later p c opt _ j.room a j.at (ap (λ i. i.address) j.same_info ∙ address) q
        r.info.connections same
        (ap (remove_connection c.address) seats
          ∙ remove_last q.own c r.info.connections q.own_address strangers) in
    (
      l.room,
      l.at,
      l.same_info ∙ ap {A = Info} (λ i. record i { connections = r.info.connections }) j.same_info,
    )
