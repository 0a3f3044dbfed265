-- ===== src/LocalRoom/Sending/Activity.antt =====
-- The time of a room's last activity, while the room sends messages.
use page_spy_api.Base.{
  ℕ, ◌≡◌, refl, ap, subst, ◌∙◌, false, if-false, Option, eqb, Bool-cases, inl, inr,
}
use page_spy_api.Address.{Address, Package}
use page_spy_api.Failure.{ok}
use page_spy_api.Message.{Message, not_message_type}
use page_spy_api.World.{Ptr, LocalRoom, Object, free, local, remote, World, Env, write, write_self}
use page_spy_api.World.Action.{◌>>=◌, ◌>>◌, bind-ok, attempt_state}
use page_spy_api.World.Action.Respects.{IsPreorder, Respects}
use page_spy_api.Rooms.Frame.{Kept}
use page_spy_api.Emitter.{emit}
use page_spy_api.Emitter.Frame.{emit-Keeps}
use page_spy_api.LocalRoom.Fields.{ping}
use page_spy_api.LocalRoom.Sending.{send_message_with_timeout, send_message, send_known}
use page_spy_api.LocalRoom.Sending.Frame.{send_message_with_timeout-Respects, send_known-Respects}

-- The room at `p` was active at `now`, and still is.
pub record StaysActive (now : ℕ) (p : Ptr) (v w : World) : Type 0 where
  pub at :
      (r : LocalRoom)
      → v.heap p ≡ local r
      → r.info.active_at ≡ now
      → (s : LocalRoom) × (w.heap p ≡ local s) × (s.info.active_at ≡ now)

pub StaysActive-preorder : (now : ℕ) (p : Ptr) → IsPreorder (StaysActive now p)
StaysActive-preorder now p = record {
  reflexive = λ w. record { at = λ r e a. (r, e, a) };
  transitive = λ u v w h k. record { at = λ r e a. let (s, f, b) = h.at r e a in k.at s f b };
}

Kept-active :
    (now : ℕ) (r : LocalRoom) (o : Object)
    → Kept (local r) o
    → r.info.active_at ≡ now
    → (s : LocalRoom) × (o ≡ local s) × (s.info.active_at ≡ now)
Kept-active now r free h a = absurd h
Kept-active now r (local s) h a = (s, refl, ap (λ i. i.active_at) h.0 ∙ a)
Kept-active now r (remote s) h a = absurd h

emit-StaysActive :
    (now : ℕ) (p : Ptr) (env : Env) (a : Option Address) (pkg : Package)
    → Respects (StaysActive now p) (emit env a pkg)
emit-StaysActive now p env a pkg = record {
  at = λ w. record {
    at = λ r e b.
        Kept-active now r ((emit env a pkg w).1.heap p)
          (subst (λ o. Kept o ((emit env a pkg w).1.heap p)) e (((emit-Keeps env a pkg).at w).at p))
          b;
  };
}

-- Ping makes the room active now.
pub ping_active :
    (now : ℕ) (p : Ptr) (w : World) (r : LocalRoom)
    → w.heap p ≡ local r
    → (ping now p w).1.heap p ≡ local (record r { info = record (r.info) { active_at = now } })
unfolding ping ◌>>=◌
ping_active now p w r e = rw e (write_self p _ w.heap)

write_active :
    (now : ℕ) (p q : Ptr) (t : LocalRoom) (h : Ptr → Object)
    → t.info.active_at ≡ now
    → (r : LocalRoom) → h p ≡ local r
    → r.info.active_at ≡ now
    → (s : LocalRoom) × (write q (local t) h p ≡ local s) × (s.info.active_at ≡ now)
write_active now p q t h b r f a = elim (Bool-cases (eqb p q)) [
  | inl c ↦ (t, rw c, b)
  | inr c ↦ (r, rw c f, a)
]

ping-StaysActive : (now : ℕ) (p q : Ptr) → Respects (StaysActive now p) (ping now q)
unfolding ping ◌>>=◌
ping-StaysActive now p q = record { at = λ w. at_object w (w.heap q) refl }
  where
    at_object : (w : World) (o : Object) → w.heap q ≡ o → StaysActive now p w (ping now q w).1
    at_object w free e = rw e ((StaysActive-preorder now p).reflexive w)
    at_object w (local s) e = rw e (record {
      at = λ r f a.
          write_active now p q (record s { info = record (s.info) { active_at = now } }) w.heap refl
            r f a;
    })
    at_object w (remote s) e = rw e ((StaysActive-preorder now p).reflexive w)

-- Whatever a room sends, it was active now.
pub send_message_with_timeout-StaysActive :
    (env : Env) (now : ℕ) (p q : Ptr) (msg : Message)
    → Respects (StaysActive now p) (send_message_with_timeout env now q msg)
send_message_with_timeout-StaysActive env now p q msg =
    send_message_with_timeout-Respects (StaysActive now p) (StaysActive-preorder now p)
      (emit-StaysActive now p) now (ping-StaysActive now p) env q msg

pub ping_ok :
    (now : ℕ) (p : Ptr) (w : World) (r : LocalRoom)
    → w.heap p ≡ local r
    → ping now p w ≡ (ok tt, (ping now p w).1)
unfolding ping ◌>>=◌
ping_ok now p w r e = rw e

pub send_message_known :
    (env : Env) (now : ℕ) (p : Ptr) (msg : Message)
    → not_message_type msg.type ≡ false
    → send_message env now p msg ≡ (ping now p >> send_known env now p msg)
unfolding send_message
send_message_known env now p msg known = if-false (not_message_type msg.type) _ _ known

-- Sending a message of a known type makes the room active now.
pub send_active :
    (env : Env) (now : ℕ) (p : Ptr) (msg : Message) (w : World) (r : LocalRoom)
    → w.heap p ≡ local r
    → not_message_type msg.type ≡ false
    → (s : LocalRoom) × ((send_message_with_timeout env now p msg w).1.heap p ≡ local s)
      × (s.info.active_at ≡ now)
unfolding send_message_with_timeout
send_active env now p msg w r e known =
    rw
      (
        attempt_state,
        send_message_known env now p msg known,
        bind-ok (ping now p) _ w (ping now p w).1 tt (ping_ok now p w r e),
      )
      (((send_known-Respects (StaysActive now p) (StaysActive-preorder now p)
            (emit-StaysActive now p) now (ping-StaysActive now p) env p msg).at
          (ping now p w).1).at
        _ (ping_active now p w r e) refl)
