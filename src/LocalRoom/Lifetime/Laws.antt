-- ===== src/LocalRoom/Lifetime/Laws.antt =====
-- When a room is removed, and what closing it leaves.
use page_spy_api.Base.{
  ℕ, ◌+◌, ◌<◌, String, ◌≡◌, ◌↔◌, inl, inr, ap, subst, ◌∙◌, Bool, true, false, [], Option, some,
  arith, Bool-cases,
}
use page_spy_api.Failure.{ok}
use page_spy_api.Status.{init_status, running_status, close_status}
use page_spy_api.Address.{Address}
use page_spy_api.World.{Ptr, BasicRoom, LocalRoom, local, World, Env, write, write_self}
use page_spy_api.World.Action.{◌>>=◌, ◌>>◌, continue, lift, bind-ok, bind-lift}
use page_spy_api.Listeners.{get_listeners, remove_listener}
use page_spy_api.Listeners.Table.{
  Without, remove_listener-Without, remove_listener-ok, heap-remove_listener,
}
use page_spy_api.Message.{new_close_message}
use page_spy_api.Rooms.{is_closed, close_basic}
use page_spy_api.LocalRoom.Sending.{send_message_with_timeout}
use page_spy_api.LocalRoom.Sending.Frame.{
  steady, steady_room, SteadyObject, send_message_with_timeout-Steady,
  send_message_with_timeout-Shrinks,
}
use page_spy_api.LocalRoom.Fields.{this, set_this, this_lem, set_this_lem, deref}
use page_spy_api.LocalRoom.Lifetime.{
  verdict, should_remove, close, no_use_init_room, no_user_room, no_use_room,
}

-- Why an open room is to be removed: it waits for its first user, or has lost its last one, for
-- more than a minute; nothing was sent in it for more than five; or it is older than an hour.
pub data Expired (now : ℕ) (r : LocalRoom) : Type 0 where
  unused :
      r.basic.machine.status ≡ init_status
      → r.info.connections ≡ []
      → r.info.created_at + 60000 < now
      → Expired now r
  deserted :
      r.basic.machine.status ≡ running_status
      → r.info.connections ≡ []
      → r.info.active_at + 60000 < now
      → Expired now r
  idle : r.basic.machine.status ≡ running_status → r.info.active_at + 300000 < now → Expired now r
  old : r.info.created_at + 3600000 < now → Expired now r

verdict-Expired : (now : ℕ) (r : LocalRoom) → (verdict now r).1.1 ≡ true → Expired now r
unfolding verdict
verdict-Expired now r h = elim (Bool-cases (no_use_init_room now r)) [
  | inl a ↦ unused (ground arith) (ground arith) (ground arith)
  | inr a ↦ (elim (Bool-cases (no_user_room now r)) [
    | inl b ↦ deserted (ground arith) (ground arith) (ground arith)
    | inr b ↦ (elim (Bool-cases (no_use_room now r)) [
      | inl c ↦ idle (ground arith) (ground arith)
      | inr c ↦ old (ground arith)
    ])
  ])
]

Expired-verdict : (now : ℕ) (r : LocalRoom) → Expired now r → (verdict now r).1.1 ≡ true
unfolding verdict
Expired-verdict now r (unused s e t) = ground arith
Expired-verdict now r (deserted s e t) = ground arith
Expired-verdict now r (idle s t) = ground arith
Expired-verdict now r (old t) = ground arith

-- ShouldRemove asks for the removal of an open room exactly if the room has expired.
pub should_remove-Expired :
    (now : ℕ) (p : Ptr) (w : World) (r : LocalRoom)
    → w.heap p ≡ local r
    → is_closed r.basic ≡ false
    → (code : String) × (b : Bool) × ((should_remove now p w).0 ≡ ok (code, b))
      × ((b ≡ true) ↔ Expired now r)
unfolding should_remove this set_this ◌>>=◌
should_remove-Expired now p w r e o = (
  (verdict now r).1.0,
  (verdict now r).1.1,
  rw (e, continue, o, continue),
  (verdict-Expired now r, Expired-verdict now r),
)

closes :
    (b : BasicRoom)
    → is_closed b ≡ false
    → b.done ≡ false
    → close_basic b ≡ ok (record { machine = record { status = close_status }; done = true })
unfolding close_basic
closes b o f = rw (o, f)

module _ (env : Env) (now : ℕ) (p : Ptr) (code : String) (w : World) (r : LocalRoom) (a : Address)
    (at : w.heap p ≡ local r) (open_ : is_closed r.basic ≡ false) (fresh : r.basic.done ≡ false)
    (address : r.info.address ≡ some a) where
  closed_room : LocalRoom
  closed_room = record r {
    basic = record { machine = record { status = close_status }; done = true };
  }

  marked : World
  unfolding closed_room
  marked = record w { heap = write p (local closed_room) w.heap }

  unlisted : World
  unlisted = (remove_listener (some a) p marked).1

  announced :
      (o : Option Address)
      → o ≡ some a
      → (remove_listener o p
            >> (lift (deref o) >>= λ b.
                send_message_with_timeout env now p (new_close_message now b r.close_reason)))
          marked
        ≡ send_message_with_timeout env now p (new_close_message now a r.close_reason) unlisted
  unfolding unlisted
  announced o e = rw e (
      bind-ok (remove_listener (some a) p) _ marked unlisted tt (remove_listener-ok a p marked)
      ∙ bind-lift a _ unlisted)

  close_steps :
      close env now p code w
      ≡ send_message_with_timeout env now p (new_close_message now a r.close_reason) unlisted
  unfolding close marked unlisted closed_room
  close_steps =
      bind-ok (this p) _ w w r (this_lem p w r at)
      ∙ rw (open_, fresh)
          (bind-lift closed_room.basic _ w
            ∙ bind-ok (set_this p closed_room) _ w marked tt (set_this_lem p closed_room w)
            ∙ announced r.info.address address)

  -- Closing an open room whose channel `done` is open leaves the room closed, with this channel closed
  -- and its information as it was but for the time of activity, and takes it from the listeners of
  -- its address, whatever becomes of the last message.
  pub close-IsClosed :
      (s : LocalRoom) × ((close env now p code w).1.heap p ≡ local s)
      × (is_closed s.basic ≡ true)
      × (s.basic.done ≡ true)
      × (steady s.info ≡ steady r.info)
      × Without p (get_listeners (some a) (close env now p code w).1)
  unfolding closed_room marked unlisted
  close-IsClosed =
      let sent = send_message_with_timeout env now p (new_close_message now a r.close_reason) in
      let (s, at', info, basic, reason, code') =
        steady_room closed_room ((sent unlisted).1.heap p) (
          subst (λ o. SteadyObject o ((sent unlisted).1.heap p)) here
            (((send_message_with_timeout-Steady env now p _).at unlisted).at p)) in
      rw close_steps (
        s,
        at',
        ap is_closed basic,
        ap (λ (b : BasicRoom). b.done) basic,
        info,
        ((send_message_with_timeout-Shrinks env now p _).at unlisted).at p a
            (remove_listener-Without a p marked),
      )
    where
      here : unlisted.heap p ≡ local closed_room
      here = rw (heap-remove_listener (some a) p marked) (write_self p (local closed_room) w.heap)
