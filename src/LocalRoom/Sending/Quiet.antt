-- ===== src/LocalRoom/Sending/Quiet.antt =====
-- Sending in a room without connections, as the message of Start is sent.
use page_spy_api.Base.{
  ℕ, String, ◌≡◌, refl, sym, ap, ◌∙◌, ◌⊎◌, inl, inr, List, [], Option, none, some, Bool,
}
use page_spy_api.Failure.{GoError, Outcome, ok, err, panic}
use page_spy_api.Address.{Address, Package}
use page_spy_api.Message.{Connection, Message, not_message_type, new_start_message}
use page_spy_api.World.{Ptr, LocalRoom, local, World, Env, write, write_self}
use page_spy_api.World.Action.{◌>>=◌, ◌>>◌, lift, lift-err, bind-ok, bind-lift, attempt_state}
use page_spy_api.World.Action.Respects.{Calm, attempt-Calm}
use page_spy_api.Listeners
use page_spy_api.Rooms.{room_message_to_package, pack}
use page_spy_api.LocalRoom.Fields.{deref, this, ping, this_lem, set_this, set_this_lem}
use page_spy_api.LocalRoom.Sending.{
  start, deliver, emit_each, send_known, other_message, send_message, send_message_with_timeout,
  everybody,
}
use page_spy_api.LocalRoom.Sending.Activity.{ping_ok}

packs :
    (env : Env) (msg : Message) (from : Option Address)
    → Calm (room_message_to_package env msg from)
unfolding room_message_to_package
packs env msg from = encoded (env.marshal msg.content)
  where
    encoded : (o : GoError ⊎ String) → Calm (pack msg from o)
    encoded (inl e) = tt
    encoded (inr t) = tt

nobody :
    (env : Env) (pkg : Package) (test : Connection → Outcome Bool) (cs : List Connection)
    (w : World)
    → cs ≡ []
    → emit_each env pkg test none cs w ≡ (ok tt, w)
unfolding emit_each ◌>>=◌
nobody env pkg test cs w e = rw e refl

module _ (env : Env) (now : ℕ) (p : Ptr) (msg : Message) (w : World) (r : LocalRoom)
    (e : w.heap p ≡ local r) (empty : r.info.connections ≡ []) where
  emptied :
      (test : Connection → Outcome Bool) (o : Outcome Package)
      → Calm o
      → Calm ((lift o >>= λ pkg. ping now p >> emit_each env pkg test none r.info.connections) w).0
  emptied test (err x) h =
      rw (lift-err x (λ pkg. ping now p >> emit_each env pkg test none r.info.connections) w) tt
  emptied test (ok pkg) h =
      rw
        (bind-lift pkg (λ pkg. ping now p >> emit_each env pkg test none r.info.connections) w
          ∙ bind-ok (ping now p) (λ _. emit_each env pkg test none r.info.connections) w _ tt
              (ping_ok now p w r e)
          ∙ nobody env pkg test r.info.connections _ empty)
        tt
  emptied test panic h = absurd h

  deliver_quiet : (test : Connection → Outcome Bool) → Calm (deliver env now p msg test w).0
  unfolding deliver
  deliver_quiet test =
      rw (bind-ok (this p) _ w w r (this_lem p w r e)) (
        emptied test (room_message_to_package env msg r.info.address)
          (packs env msg r.info.address))

abbrev pinged : ℕ → LocalRoom → LocalRoom
pinged now r = record r { info = record (r.info) { active_at = now } }

ping_lem :
    (now : ℕ) (p : Ptr) (w : World) (r : LocalRoom)
    → w.heap p ≡ local r
    → ping now p w ≡ (ok tt, record w { heap = write p (local (pinged now r)) w.heap })
unfolding ping
ping_lem now p w r e =
    bind-ok (this p) (λ s. set_this p (pinged now s)) w w r (this_lem p w r e)
    ∙ set_this_lem p (pinged now r) w

start_known :
    (env : Env) (now : ℕ) (p : Ptr) (a : Address)
    → send_message env now p (new_start_message now a)
      ≡ (ping now p >> deliver env now p (new_start_message now a) everybody)
unfolding send_message send_known other_message new_start_message not_message_type
start_known env now p a = refl

-- The message of Start, in a room that nobody has joined, does not panic.
pub start_quiet :
    (env : Env) (now : ℕ) (p : Ptr) (a : Address) (w : World) (r : LocalRoom)
    → w.heap p ≡ local r
    → r.info.connections ≡ []
    → Calm (send_message env now p (new_start_message now a) w).0
start_quiet env now p a w r e empty =
    rw
      (
        start_known env now p a,
        bind-ok (ping now p) (λ _. deliver env now p (new_start_message now a) everybody) w _ tt
            (ping_lem now p w r e),
      )
      (deliver_quiet env now p (new_start_message now a)
        (record w { heap = write p (local (pinged now r)) w.heap }) (pinged now r)
        (write_self p (local (pinged now r)) w.heap) empty everybody)

-- Start registers a new room and returns.
pub start_lem :
    (env : Env) (now : ℕ) (p : Ptr) (a : Address) (w : World) (r : LocalRoom)
    → w.heap p ≡ local r
    → r.info.address ≡ some a
    → r.info.connections ≡ []
    → start env now p w ≡ (
      ok tt,
      (send_message_with_timeout env now p
          (new_start_message now a)
          (Listeners.listen (some a) p w).1).1,
    )
unfolding start Listeners.listen send_message_with_timeout
start_lem env now p a w r e address empty =
    bind-ok (this p) _ w w r (this_lem p w r e) ∙ listed r.info.address address
  where
    listed :
        (o : Option Address)
        → o ≡ some a
        → (Listeners.listen o p >>= λ _.
              lift (deref o) >>= λ b. send_message_with_timeout env now p (new_start_message now b))
            w
          ≡ (
            ok tt,
            (send_message_with_timeout env now p
                (new_start_message now a)
                (Listeners.listen (some a) p w).1).1,
          )
    listed o h = rw h (
        bind-ok (Listeners.listen (some a) p) _ w _ tt refl
        ∙ bind-lift a _ _
        ∙ (attempt-Calm (send_message env now p (new_start_message now a))
              (Listeners.listen (some a) p w).1
              (start_quiet env now p a (Listeners.listen (some a) p w).1 r e empty)
            ∙ ap (λ w'. (ok tt, w')) (sym (attempt_state _ _))))
