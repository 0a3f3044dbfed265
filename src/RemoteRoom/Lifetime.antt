-- ===== src/RemoteRoom/Lifetime.antt =====
-- When a client's end of a room is removed, and what closing it leaves.
use page_spy_api.Base.{
  ℕ, ◌+◌, ◌<◌, String, ◌≡◌, refl, ap, ◌∙◌, ◌↔◌, ◌⊎◌, inl, inr, Bool, true, false, Option, some,
  arith, Bool-cases,
}
use page_spy_api.Failure.{ok}
use page_spy_api.Status.{close_status}
use page_spy_api.Address.{Address}
use page_spy_api.World.{Ptr, BasicRoom, RemoteRoom, remote, World, write, write_self}
use page_spy_api.World.Action.{◌>>=◌, pure, bind-ok, bind-lift, bind-modify}
use page_spy_api.Listeners.{get_listeners, remove_listener}
use page_spy_api.Listeners.Table.{
  Without, remove_listener-Without, remove_listener-ok, heap-remove_listener,
}
use page_spy_api.Rooms.{is_closed, close_basic, close_remote}
use page_spy_api.RemoteRoom.{this_remote, client_verdict, should_remove_client, close_client}

pub this_remote_lem :
    (p : Ptr) (w : World) (r : RemoteRoom) → w.heap p ≡ remote r → this_remote p w ≡ (ok r, w)
unfolding this_remote
this_remote_lem p w r e = rw e refl

-- ShouldRemove of a client's end answers without a change, and asks for the removal exactly if the
-- end is closed, is older than an hour, or has sent nothing for more than twenty seconds.
pub should_remove_client_lem :
    (now : ℕ) (p : Ptr) (w : World) (r : RemoteRoom)
    → w.heap p ≡ remote r
    → (code : String) × (b : Bool) × (should_remove_client now p w ≡ (ok (code, b), w))
      × ((b ≡ true) ↔ (
          (is_closed r.basic ≡ true)
          ⊎ (r.created_at + 3600000 < now)
          ⊎ (r.active_at + 20000 < now)))
unfolding should_remove_client
should_remove_client_lem now p w r e = (
  (client_verdict now r).0,
  (client_verdict now r).1,
  bind-ok (this_remote p) (λ r. pure (client_verdict now r)) w w r (this_remote_lem p w r e)
      ∙ (unfold ◌>>=◌ in refl),
  (λ h. ground arith, λ h. ground arith),
)

-- basicRoom.close of a room whose channel is open, unless the room is closed already.
closed_end :
    (b : BasicRoom)
    → (is_closed b ≡ true) ⊎ (b.done ≡ false)
    → (c : BasicRoom) × (close_basic b ≡ ok c) × (is_closed c ≡ true)
unfolding close_basic
closed_end b (inl h) = (b, rw h refl, h)
closed_end b (inr h) = elim (Bool-cases (is_closed b)) [
  | inl c ↦ (b, rw c refl, c)
  | inr o ↦
      (record { machine = record { status = close_status }; done = true }, rw (o, h) refl, refl)
]

module _ (p : Ptr) (code : String) (w : World) (r : RemoteRoom) (a : Address)
    (at : w.heap p ≡ remote r) (address : r.connection.address ≡ some a) where
  ended : BasicRoom → World
  ended b = record w { heap = write p (remote (record r { basic = b })) w.heap }

  close_client_steps :
      (b : BasicRoom)
      → close_basic r.basic ≡ ok b
      → close_client p code w ≡ (ok tt, (remove_listener (some a) p (ended b)).1)
  unfolding close_client close_remote ended
  close_client_steps b e =
      bind-ok (this_remote p) (close_remote p) w w r (this_remote_lem p w r at)
      ∙ rw e (
          bind-lift b _ w
          ∙ bind-modify _ (λ _. remove_listener r.connection.address p) w
          ∙ gone r.connection.address address)
    where
      gone :
          (o : Option Address)
          → o ≡ some a
          → remove_listener o p (ended b) ≡ (ok tt, (remove_listener (some a) p (ended b)).1)
      gone o h = rw h (remove_listener-ok a p (ended b))

  -- Closing a client's end, a second time too, returns; the end is closed, with the messages that
  -- it had, and nobody finds it among the listeners of its connection's address.
  pub close_client-IsClosed :
      (is_closed r.basic ≡ true) ⊎ (r.basic.done ≡ false)
      → (s : RemoteRoom) × (v : World) × (close_client p code w ≡ (ok tt, v))
        × (v.heap p ≡ remote s)
        × (is_closed s.basic ≡ true)
        × (s.messages ≡ r.messages)
        × Without p (get_listeners (some a) v)
  unfolding ended
  close_client-IsClosed h =
      let (b, e, c) = closed_end r.basic h in
      (
        record r { basic = b },
        (remove_listener (some a) p (ended b)).1,
        close_client_steps b e,
        ap (λ f. f p) (heap-remove_listener (some a) p (ended b))
            ∙ write_self p (remote (record r { basic = b })) w.heap,
        c,
        refl,
        remove_listener-Without a p (ended b),
      )
