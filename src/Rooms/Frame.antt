-- ===== src/Rooms/Frame.antt =====
-- What delivering a message to a listener leaves alone.
use page_spy_api.Base.{
  ◌≡◌, refl, sym, subst, ◌⊎◌, ◌∙◌, true, false, Option, none, some, List, Bool, eqb, eqb_iff, ◌==◌,
  inl, inr, Bool-cases,
}
use page_spy_api.Failure.{Outcome, ok, err, panic, ok-injective}
use page_spy_api.Address.{Address, Package}
use page_spy_api.Message.{Message, close_type}
use page_spy_api.World.{
  Ptr, BasicRoom, RemoteRoom, Object, free, local, remote, World, Env, write, write_self,
}
use page_spy_api.World.Action.{◌>>=◌, ◌>>◌, lift, modify}
use page_spy_api.World.Action.Respects.{IsPreorder, Respects}
use page_spy_api.Listeners.{remove_listener}
use page_spy_api.Rooms.{
  is_closed, close_basic, close_remote, after_send, listen_remote, listen_local, listen_object,
  listen, package_to_room_message, send,
}

-- The same, or closed with its channel closed
abbrev pub Closes : BasicRoom → BasicRoom → Type 0
Closes b c = (c ≡ b) ⊎ ((is_closed c ≡ true) × (c.done ≡ true))

Closes-trans : (b c d : BasicRoom) → Closes b c → Closes c d → Closes b d
Closes-trans b c d h (inr k) = inr k
Closes-trans b c d (inl h) (inl k) = inl (k ∙ h)
Closes-trans b c d (inr h) (inl k) =
    inr (subst (λ (x : BasicRoom). (is_closed x ≡ true) × (x.done ≡ true)) (sym k) h)

-- The object is the same up to its channel of messages, and a remote room may have been closed.
abbrev pub Kept : Object → Object → Type 0
Kept free free = Unit
Kept (local r) (local s) =
    (s.info ≡ r.info)
    × (s.basic ≡ r.basic)
    × (s.close_reason ≡ r.close_reason)
    × (s.close_code ≡ r.close_code)
Kept (remote r) (remote s) =
    (s.connection ≡ r.connection)
    × (s.opt ≡ r.opt)
    × (s.rpc_info ≡ r.rpc_info)
    × (s.created_at ≡ r.created_at)
    × (s.active_at ≡ r.active_at)
    × Closes r.basic s.basic
Kept _ _ = ⊥

pub record Keeps (v w : World) : Type 0 where
  pub next : w.next ≡ v.next
  pub at : (p : Ptr) → Kept (v.heap p) (w.heap p)

pub Kept-refl : (o : Object) → Kept o o
Kept-refl free = tt
Kept-refl (local r) = (refl, refl, refl, refl)
Kept-refl (remote r) = (refl, refl, refl, refl, refl, inl refl)

pub Kept-trans : (a b c : Object) → Kept a b → Kept b c → Kept a c
Kept-trans free free c h k = k
Kept-trans free (local s) c h k = absurd h
Kept-trans free (remote s) c h k = absurd h
Kept-trans (local r) free c h k = absurd h
Kept-trans (local r) (remote s) c h k = absurd h
Kept-trans (local r) (local s) free h k = absurd k
Kept-trans (local r) (local s) (remote t) h k = absurd k
Kept-trans (local r) (local s) (local t) h k = (k.0 ∙ h.0, k.1 ∙ h.1, k.2 ∙ h.2, k.3 ∙ h.3)
Kept-trans (remote r) free c h k = absurd h
Kept-trans (remote r) (local s) c h k = absurd h
Kept-trans (remote r) (remote s) free h k = absurd k
Kept-trans (remote r) (remote s) (local t) h k = absurd k
Kept-trans (remote r) (remote s) (remote t) h k = (
  k.0 ∙ h.0,
  k.1 ∙ h.1,
  k.2 ∙ h.2,
  k.3 ∙ h.3,
  k.4 ∙ h.4,
  Closes-trans r.basic s.basic t.basic h.5 k.5,
)

pub Keeps-preorder : IsPreorder Keeps
Keeps-preorder = record {
  reflexive = λ w. record { next = refl; at = λ p. Kept-refl (w.heap p) };
  transitive = λ u v w h k. record {
    next = k.next ∙ h.next;
    at = λ p. Kept-trans (u.heap p) (v.heap p) (w.heap p) (h.at p) (k.at p);
  };
}

-- One cell is written, by an object that is kept.
Kept-write : (h : Ptr → Object) (p q : Ptr) (o : Object) → Kept (h p) o → Kept (h q) (write p o h q)
Kept-write h p q o k = elim (Bool-cases (eqb q p)) [
  | inl e ↦ rw (e, (eqb_iff q p).0 e) k
  | inr e ↦ rw e (Kept-refl (h q))
]

pub Keeps-write :
    (w : World) (p : Ptr) (o : Object)
    → Kept (w.heap p) o
    → Keeps w (record w { heap = write p o w.heap })
Keeps-write w p o k = record { next = refl; at = λ q. Kept-write w.heap p q o k }

pub remove_listener-Keeps :
    (w : World) (a : Option Address) (p : Ptr) → Keeps w (remove_listener a p w).1
unfolding remove_listener
remove_listener-Keeps w none p = Keeps-preorder.reflexive w
remove_listener-Keeps w (some a) p = record { next = refl; at = λ q. Kept-refl (w.heap q) }

Kept-remote :
    (o : Object) (r : RemoteRoom) (b : BasicRoom)
    → Kept o (remote r)
    → Closes r.basic b
    → Kept o (remote (record r { basic = b }))
Kept-remote o r b k c =
    Kept-trans o (remote r) (remote (record r { basic = b })) k (refl, refl, refl, refl, refl, c)

close_basic-Closes : (b c : BasicRoom) → close_basic b ≡ ok c → Closes b c
unfolding close_basic
close_basic-Closes b c h = elim (Bool-cases (is_closed b)) [
  | inl e ↦ inl (sym (ok-injective (rw e at h)))
  | inr e ↦ elim (Bool-cases b.done) [
    | inl d ↦ absurd (let f = rw (e, d) at h in cc)
    | inr d ↦ inr (
        subst (λ (x : BasicRoom). (is_closed x ≡ true) × (x.done ≡ true))
          (ok-injective (rw (e, d) at h)) (refl, refl))
  ]
]

close_remote-Keeps :
    (w : World) (p : Ptr) (r : RemoteRoom)
    → Kept (w.heap p) (remote r)
    → Keeps w (close_remote p r w).1
unfolding close_remote ◌>>=◌
close_remote-Keeps w p r k = finish (close_basic r.basic) refl
  where
    finish :
        (b : Outcome BasicRoom)
        → close_basic r.basic ≡ b
        → Keeps w
            ((lift b >>= λ basic.
                modify
                  (λ v. record v { heap = write p (remote (record r { basic = basic })) v.heap })
                >> remove_listener r.connection.address p)
              w).1
    finish (ok basic) e =
        let o = remote (record r { basic = basic }) in
        Keeps-preorder.transitive w (record w { heap = write p o w.heap }) _
          (Keeps-write w p o
            (Kept-remote (w.heap p) r basic k (close_basic-Closes r.basic basic e)))
          (remove_listener-Keeps _ r.connection.address p)
    finish (err x) e = Keeps-preorder.reflexive w
    finish panic e = Keeps-preorder.reflexive w

after_send-Keeps :
    (w : World) (p : Ptr) (r : RemoteRoom) (m : Message) (q : List Message × Bool)
    → w.heap p ≡ remote r
    → Keeps w (after_send p r m q w).1
unfolding after_send ◌>>=◌
after_send-Keeps w p r m (q, false) e = Keeps-preorder.reflexive w
after_send-Keeps w p r m (q, true) e = elim (Bool-cases (m.type == close_type)) [
  | inl c ↦
      rw (c, after_send)
        (Keeps-preorder.transitive w _ _ sent (
          close_remote-Keeps _ p (record r { messages = q })
            (rw (write_self p (remote (record r { messages = q })) w.heap)
              (refl, refl, refl, refl, refl, inl refl))))
  | inr c ↦ rw (c, after_send) sent
]
  where
    sent : Keeps w (record w { heap = write p (remote (record r { messages = q })) w.heap })
    sent = Keeps-write w p _ (rw e (refl, refl, refl, refl, refl, inl refl))

-- Delivery changes only the channels of rooms, and whether a remote room is closed.
pub listen-Keeps : (env : Env) (pkg : Package) (p : Ptr) → Respects Keeps (listen env pkg p)
unfolding listen ◌>>=◌
listen-Keeps env pkg p = record { at = λ w. at_object w (w.heap p) refl }
  where
    at_object : (w : World) (o : Object) → w.heap p ≡ o → Keeps w (listen_object env p pkg o w).1
    at_object w free e = Keeps-preorder.reflexive w
    at_object w (local r) e = received (package_to_room_message env pkg)
      where
        received : (m : Outcome Message) → Keeps w (listen_local p r m w).1
        received (ok m) = Keeps-write w p _ (rw e (refl, refl, refl, refl))
        received (err x) = Keeps-preorder.reflexive w
        received panic = Keeps-preorder.reflexive w
    at_object w (remote r) e = received (package_to_room_message env pkg)
      where
        received : (m : Outcome Message) → Keeps w (listen_remote p r m w).1
        received (ok m) = after_send-Keeps w p r m (send m r.messages) e
        received (err x) = Keeps-preorder.reflexive w
        received panic = Keeps-preorder.reflexive w
