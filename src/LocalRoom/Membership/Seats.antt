-- ===== src/LocalRoom/Membership/Seats.antt =====
-- A room whose connections were set and which then tells the others, as in Join and Leave.
use page_spy_api.Base.{ℕ, ◌≡◌, ◌⊎◌, inl, inr, refl, sym, ap, subst, ◌∙◌, List}
use page_spy_api.Failure.{Outcome, ok, panic}
use page_spy_api.Status.{StatusMachine, running_status, set_status}
use page_spy_api.Message.{Connection, Message}
use page_spy_api.World.{Ptr, LocalRoom, local, World, Env, write, write_self}
use page_spy_api.World.Action.{
  ◌>>=◌, ◌>>◌, bind-ok, bind-panic, Done, attempt_returns, attempt_state,
}
use page_spy_api.LocalRoom.Fields.{this, set_this, this_lem, set_this_lem}
use page_spy_api.LocalRoom.Sending.{send_message, send_message_with_timeout}
use page_spy_api.LocalRoom.Sending.Frame.{
  steady, steady_room, SteadyObject, send_message_with_timeout-Steady,
}
use page_spy_api.LocalRoom.Membership.{set_running}

-- The room with these connections.
abbrev pub seated : LocalRoom → List Connection → LocalRoom
seated r cs = record r { info = record (r.info) { connections = cs } }

-- What the room is after its connections were set and a message was sent: the connections, and all
-- that sending does not touch.
seated_and_told :
    (env : Env) (now : ℕ) (p : Ptr) (msg : Message) (w : World) (r : LocalRoom)
    → (s : LocalRoom) × ((send_message_with_timeout env now p msg
            (record w { heap = write p (local r) w.heap })).1.heap
          p
        ≡ local s)
      × (steady s.info ≡ steady r.info)
      × (s.basic ≡ r.basic)
seated_and_told env now p msg w r =
    let told =
      send_message_with_timeout env now p msg (record w { heap = write p (local r) w.heap }) in
    let (s, e, i, b, x, y) = steady_room r (told.1.heap p) (
      subst (λ o. SteadyObject o (told.1.heap p)) (write_self p (local r) w.heap)
        (((send_message_with_timeout-Steady env now p msg).at
            (record w { heap = write p (local r) w.heap })).at
          p)) in
    (s, e, i, b)

-- What a call leaves of the room r when it set the connections cs: them, and all that sending does
-- not touch. A call that returned left the machine of the room as m; a call that panicked while it
-- told the others did not.
pub record Left (p : Ptr) (r : LocalRoom) (cs : List Connection) (m : StatusMachine)
    (result : Outcome Done × World) : Type 0 where
  pub room : LocalRoom
  pub at : result.1.heap p ≡ local room
  pub same_info : steady room.info ≡ steady (seated r cs).info
  pub ended : ((result.0 ≡ ok tt) × (room.basic.machine ≡ m)) ⊎ (result.0 ≡ panic)

set_running_lem :
    (p : Ptr) (w : World) (s : LocalRoom)
    → w.heap p ≡ local s
    → set_running p w
      ≡ set_this p
          (record s {
            basic = record (s.basic) { machine = set_status running_status s.basic.machine };
          })
          w
unfolding set_running
set_running_lem p w s e = bind-ok (this p) _ w w s (this_lem p w s e)

logged :
    (env : Env) (now : ℕ) (p : Ptr) (msg : Message) (w : World)
    → (send_message_with_timeout env now p msg w
        ≡ (ok tt, (send_message_with_timeout env now p msg w).1))
      ⊎ (send_message_with_timeout env now p msg w
          ≡ (panic, (send_message_with_timeout env now p msg w).1))
unfolding send_message_with_timeout
logged env now p msg w =
    subst
      (λ t.
        (send_message_with_timeout env now p msg w ≡ (ok tt, t))
        ⊎ (send_message_with_timeout env now p msg w ≡ (panic, t)))
      (sym (attempt_state (send_message env now p msg) w))
      (attempt_returns (send_message env now p msg) w)

module _ (env : Env) (now : ℕ) (p : Ptr) (msg : Message) (w : World) (r : LocalRoom) where
  abbrev told : List Connection → Outcome Done × World
  told cs =
      send_message_with_timeout env now p msg
        (record w { heap = write p (local (seated r cs)) w.heap })

  -- Sending is to return or to panic.
  told_ended :
      (cs : List Connection) → (told cs ≡ (ok tt, (told cs).1)) ⊎ (told cs ≡ (panic, (told cs).1))
  told_ended cs = logged env now p msg (record w { heap = write p (local (seated r cs)) w.heap })

  -- What set_this and the announcement leave.
  pub announced :
      (cs : List Connection)
      → Left p r cs r.basic.machine
          ((set_this p (seated r cs) >> send_message_with_timeout env now p msg) w)
  announced cs =
      let (s, e, i, b) = seated_and_told env now p msg w (seated r cs) in
      subst (Left p r cs r.basic.machine)
        (sym (bind-ok (set_this p (seated r cs)) _ w _ tt (set_this_lem p (seated r cs) w)))
        (record { room = s; at = e; same_info = i; ended = ended s b })
    where
      ended :
          (s : LocalRoom)
          → s.basic ≡ r.basic
          → (((told cs).0 ≡ ok tt) × (s.basic.machine ≡ r.basic.machine)) ⊎ ((told cs).0 ≡ panic)
      ended s b = elim (told_ended cs) [
        | inl h ↦ inl (ap (λ x. x.0) h, ap (λ x. x.machine) b)
        | inr h ↦ inr (ap (λ x. x.0) h)
      ]

  -- What follows when the room is set running too.
  pub announced_running :
      (cs : List Connection)
      → Left p r cs (set_status running_status r.basic.machine) (
          (set_this p (seated r cs) >>= λ _.
          send_message_with_timeout env now p msg >> set_running p)
            w)
  announced_running cs =
      let (s, e, i, b) = seated_and_told env now p msg w (seated r cs) in
      subst (Left p r cs (set_status running_status r.basic.machine))
        (sym (bind-ok (set_this p (seated r cs)) _ w _ tt (set_this_lem p (seated r cs) w)))
        (elim (told_ended cs) [
          | inl h ↦
              let t = record s {
                basic = record (s.basic) { machine = set_status running_status s.basic.machine };
              } in
              subst (Left p r cs (set_status running_status r.basic.machine))
                (sym (
                  bind-ok _ (λ _. set_running p) _ _ tt h
                  ∙ set_running_lem p _ s e
                  ∙ set_this_lem p t _))
                (record {
                  room = t;
                  at = write_self p (local t) ((told cs).1.heap);
                  same_info = i;
                  ended = inl (refl, ap (λ x. set_status running_status x.machine) b);
                })
          | inr h ↦
              subst (Left p r cs (set_status running_status r.basic.machine))
                (sym (bind-panic _ _ _ _ h))
                (record { room = s; at = e; same_info = i; ended = inr refl })
        ])
