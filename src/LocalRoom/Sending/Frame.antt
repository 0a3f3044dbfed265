-- ===== src/LocalRoom/Sending/Frame.antt =====
-- What sending a message in a room leaves alone: a relation that emissions and Ping respect is
-- respected by SendMessage.
use page_spy_api.Base.{
  ℕ, ◌≡◌, refl, ap, ◌∙◌, eqb, eqb_iff, Bool-cases, inl, inr, Option, none, some, List, [], ◌∷◌,
  Bool, true, false,
}
use page_spy_api.Failure.{GoError, Outcome}
use page_spy_api.Address.{Address, Package}
use page_spy_api.Message.{Connection, Info, Message, Content, message_content, broadcast_content}
use page_spy_api.World.{Ptr, LocalRoom, Object, free, local, remote, World, Env, write}
use page_spy_api.World.Action.{◌>>=◌}
use page_spy_api.World.Action.Respects.{
  IsPreorder, Respects, Respects-bind, Respects-pure, Respects-fail, Respects-lift,
  Respects-return_error, Respects-attempt, respects_rules,
}
use page_spy_api.Rooms.Frame.{Kept, Kept-refl, Kept-trans}
use page_spy_api.Listeners.Table.{Shrinks, Shrinks-preorder, Shrinks-heap}
use page_spy_api.Emitter.Delivery.{emit-Shrinks}
use page_spy_api.Emitter.{emit}
use page_spy_api.Emitter.Frame.{emit-Keeps}
use page_spy_api.LocalRoom.Fields.{this, ping}
use page_spy_api.LocalRoom.Sending.{
  emit_if, emit_each, deliver, other_message, broadcast, broadcast_message, unicast_to, unicast,
  message_message, send_known, send_message, send_message_with_timeout,
}

module _ (R : World → World → Type 0) (o : IsPreorder R)
    (emits : (env : Env) (a : Option Address) (pkg : Package) → Respects R (emit env a pkg))
    (now : ℕ) (pings : (p : Ptr) → Respects R (ping now p)) (env : Env) where
  this-Respects : (p : Ptr) → Respects R (this p)
  unfolding this
  this-Respects p = record { at = o.reflexive }

  emit_if-Respects :
      (pkg : Package) (c : Connection) (hit : Bool) → Respects R (emit_if env pkg c hit)
  unfolding emit_if
  emit_if-Respects pkg c true = Respects-attempt (emit env c.address pkg) (emits env c.address pkg)
  emit_if-Respects pkg c false = Respects-pure o none

  emit_each-Respects :
      (pkg : Package) (test : Connection → Outcome Bool) (e : Option GoError) (cs : List Connection)
      → Respects R (emit_each env pkg test e cs)
  unfolding emit_each
  emit_each-Respects pkg test e [] = Respects-return_error o e
  emit_each-Respects pkg test e (c ∷ cs) = Respects-bind o _ _ (Respects-lift o (test c)) λ hit.
      Respects-bind o _ _ (emit_if-Respects pkg c hit) λ failed. emit_each-Respects pkg test _ cs

  deliver-Respects :
      (p : Ptr) (msg : Message) (test : Connection → Outcome Bool)
      → Respects R (deliver env now p msg test)
  unfolding deliver
  deliver-Respects p msg test = Respects-bind o _ _ (this-Respects p) λ r.
      Respects-bind o _ _ (Respects-lift o _) λ pkg.
        Respects-bind o _ _ (pings p) λ _. emit_each-Respects pkg test none r.info.connections

  broadcast-Respects :
      (p : Ptr) (msg : Message) (c : Content) → Respects R (broadcast env now p msg c)
  unfolding broadcast
  broadcast-Respects p msg (broadcast_content content) = deliver-Respects p msg _
  broadcast-Respects p msg _ = Respects-fail o _

  unicast_to-Respects :
      (p : Ptr) (msg : Message) (to : Option Connection) → Respects R (unicast_to env now p msg to)
  unfolding unicast_to
  unicast_to-Respects p msg none = Respects-fail o _
  unicast_to-Respects p msg (some to) = deliver-Respects p msg _

  unicast-Respects : (p : Ptr) (msg : Message) (c : Content) → Respects R (unicast env now p msg c)
  unfolding unicast
  unicast-Respects p msg (message_content content) = unicast_to-Respects p msg content.to
  unicast-Respects p msg _ = Respects-fail o _

  message_message-Respects : (p : Ptr) (msg : Message) → Respects R (message_message env now p msg)
  unfolding message_message
  message_message-Respects p msg = unicast-Respects p msg msg.content

  broadcast_message-Respects :
      (p : Ptr) (msg : Message) → Respects R (broadcast_message env now p msg)
  unfolding broadcast_message
  broadcast_message-Respects p msg = broadcast-Respects p msg msg.content

  other_message-Respects : (p : Ptr) (msg : Message) → Respects R (other_message env now p msg)
  unfolding other_message
  other_message-Respects p msg = deliver-Respects p msg _

  pub send_known-Respects : (p : Ptr) (msg : Message) → Respects R (send_known env now p msg)
  unfolding send_known
  send_known-Respects p msg =
      search
        (
          respects_rules,
          o,
          message_message-Respects p msg,
          broadcast_message-Respects p msg,
          other_message-Respects p msg,
          pings p,
        )
        depth 8

  pub send_message-Respects : (p : Ptr) (msg : Message) → Respects R (send_message env now p msg)
  unfolding send_message
  send_message-Respects p msg = search (respects_rules, o, send_known-Respects p msg, pings p)

  pub send_message_with_timeout-Respects :
      (p : Ptr) (msg : Message) → Respects R (send_message_with_timeout env now p msg)
  unfolding send_message_with_timeout
  send_message_with_timeout-Respects p msg =
      Respects-bind o _ _ (Respects-attempt _ (send_message-Respects p msg)) λ _. Respects-pure o tt

-- Information but for the time of the last activity.
abbrev pub steady : Info → Info
steady i = record i { active_at = 0 }

-- The object is the same up to its channel of messages; a local room may have become active, and a
-- remote room may have been closed.
abbrev pub SteadyObject : Object → Object → Type 0
SteadyObject free free = Unit
SteadyObject (local r) (local s) =
    (steady s.info ≡ steady r.info)
    × (s.basic ≡ r.basic)
    × (s.close_reason ≡ r.close_reason)
    × (s.close_code ≡ r.close_code)
SteadyObject (remote r) (remote s) = Kept (remote r) (remote s)
SteadyObject _ _ = ⊥

pub record Steady (v w : World) : Type 0 where
  pub next : w.next ≡ v.next
  pub at : (p : Ptr) → SteadyObject (v.heap p) (w.heap p)

SteadyObject-trans : (a b c : Object) → SteadyObject a b → SteadyObject b c → SteadyObject a c
SteadyObject-trans free free c h k = k
SteadyObject-trans free (local s) c h k = absurd h
SteadyObject-trans free (remote s) c h k = absurd h
SteadyObject-trans (local r) free c h k = absurd h
SteadyObject-trans (local r) (remote s) c h k = absurd h
SteadyObject-trans (local r) (local s) free h k = absurd k
SteadyObject-trans (local r) (local s) (remote t) h k = absurd k
SteadyObject-trans (local r) (local s) (local t) h k = (k.0 ∙ h.0, k.1 ∙ h.1, k.2 ∙ h.2, k.3 ∙ h.3)
SteadyObject-trans (remote r) free c h k = absurd h
SteadyObject-trans (remote r) (local s) c h k = absurd h
SteadyObject-trans (remote r) (remote s) free h k = absurd k
SteadyObject-trans (remote r) (remote s) (local t) h k = absurd k
SteadyObject-trans (remote r) (remote s) (remote t) h k =
    Kept-trans (remote r) (remote s) (remote t) h k

Kept-SteadyObject : (a b : Object) → Kept a b → SteadyObject a b
Kept-SteadyObject free free h = tt
Kept-SteadyObject free (local s) h = h
Kept-SteadyObject free (remote s) h = h
Kept-SteadyObject (local r) free h = h
Kept-SteadyObject (local r) (local s) h = (ap steady h.0, h.1, h.2, h.3)
Kept-SteadyObject (local r) (remote s) h = h
Kept-SteadyObject (remote r) free h = h
Kept-SteadyObject (remote r) (local s) h = h
Kept-SteadyObject (remote r) (remote s) h = h

SteadyObject-refl : (a : Object) → SteadyObject a a
SteadyObject-refl a = Kept-SteadyObject a a (Kept-refl a)

pub Steady-preorder : IsPreorder Steady
Steady-preorder = record {
  reflexive = λ w. record { next = refl; at = λ p. SteadyObject-refl (w.heap p) };
  transitive = λ u v w h k. record {
    next = k.next ∙ h.next;
    at = λ p. SteadyObject-trans (u.heap p) (v.heap p) (w.heap p) (h.at p) (k.at p);
  };
}

emit-Steady : (env : Env) (a : Option Address) (pkg : Package) → Respects Steady (emit env a pkg)
emit-Steady env a pkg = record {
  at = λ w.
      let k = (emit-Keeps env a pkg).at w in
      record { next = k.next; at = λ p. Kept-SteadyObject _ _ (k.at p) };
}

SteadyObject-write :
    (h : Ptr → Object) (p q : Ptr) (o : Object)
    → SteadyObject (h p) o
    → SteadyObject (h q) (write p o h q)
SteadyObject-write h p q o k = elim (Bool-cases (eqb q p)) [
  | inl e ↦ rw (e, (eqb_iff q p).0 e) k
  | inr e ↦ rw e (SteadyObject-refl (h q))
]

pub ping-Steady : (now : ℕ) (p : Ptr) → Respects Steady (ping now p)
unfolding ping ◌>>=◌
ping-Steady now p = record { at = λ w. at_object w (w.heap p) refl }
  where
    at_object : (w : World) (o : Object) → w.heap p ≡ o → Steady w (ping now p w).1
    at_object w free e = rw e (Steady-preorder.reflexive w)
    at_object w (local r) e = rw e (record {
      next = refl;
      at = λ q. SteadyObject-write w.heap p q _ (rw e (refl, refl, refl, refl));
    })
    at_object w (remote r) e = rw e (Steady-preorder.reflexive w)

-- Sending a message in a room changes only the channels of messages, the local rooms' times of last
-- activity, the table of listeners and what was sent to other instances, and it may close remote
-- rooms, with their channels `done`.
pub send_message-Steady :
    (env : Env) (now : ℕ) (p : Ptr) (msg : Message) → Respects Steady (send_message env now p msg)
send_message-Steady env now p msg =
    send_message-Respects Steady Steady-preorder emit-Steady now (ping-Steady now) env p msg

pub send_message_with_timeout-Steady :
    (env : Env) (now : ℕ) (p : Ptr) (msg : Message)
    → Respects Steady (send_message_with_timeout env now p msg)
send_message_with_timeout-Steady env now p msg =
    send_message_with_timeout-Respects Steady Steady-preorder emit-Steady now (ping-Steady now) env
      p msg

emit-Shrinks_any :
    (env : Env) (a : Option Address) (pkg : Package) → Respects Shrinks (emit env a pkg)
emit-Shrinks_any env none pkg = unfold emit in record { at = λ w. Shrinks-preorder.reflexive w }
emit-Shrinks_any env (some a) pkg = record { at = λ w. emit-Shrinks env a pkg w }

ping-Shrinks : (now : ℕ) (p : Ptr) → Respects Shrinks (ping now p)
unfolding ping ◌>>=◌
ping-Shrinks now p = record { at = λ w. at_object w (w.heap p) refl }
  where
    at_object : (w : World) (o : Object) → w.heap p ≡ o → Shrinks w (ping now p w).1
    at_object w free e = rw e (Shrinks-preorder.reflexive w)
    at_object w (local r) e = rw e (Shrinks-heap w _)
    at_object w (remote r) e = rw e (Shrinks-preorder.reflexive w)

-- Nobody starts to listen because a message is sent.
pub send_message_with_timeout-Shrinks :
    (env : Env) (now : ℕ) (p : Ptr) (msg : Message)
    → Respects Shrinks (send_message_with_timeout env now p msg)
send_message_with_timeout-Shrinks env now p msg =
    send_message_with_timeout-Respects Shrinks Shrinks-preorder emit-Shrinks_any now
      (ping-Shrinks now) env p msg

-- A local room after it, with what it has kept.
pub steady_room :
    (r : LocalRoom) (o : Object)
    → SteadyObject (local r) o
    → (s : LocalRoom) × (o ≡ local s)
      × (steady s.info ≡ steady r.info)
      × (s.basic ≡ r.basic)
      × (s.close_reason ≡ r.close_reason)
      × (s.close_code ≡ r.close_code)
steady_room r free h = absurd h
steady_room r (local s) h = (s, refl, h.0, h.1, h.2, h.3)
steady_room r (remote s) h = absurd h
