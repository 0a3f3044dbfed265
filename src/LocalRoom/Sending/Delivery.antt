-- ===== src/LocalRoom/Sending/Delivery.antt =====
-- What a room's message does to one listener: it gets the message exactly once if its connection
-- passes the test of the loop, and nothing otherwise.
use page_spy_api.Base.{
  ◌≡◌, refl, ap, ◌∙◌, Option, none, some, List, [], ◌∷◌, ◌++◌, ◌==◌, Bool, true, false, length, ◌<◌,
  if◌then◌else◌, All,
}
use mathlib.Core.List.{append-nil}
use page_spy_api.Failure.{GoError, Outcome, ok, err, panic}
use page_spy_api.Address.{Address, Package}
use page_spy_api.Message.{Connection, Message, close_type}
use page_spy_api.World.{Ptr, RemoteRoom, Object, remote, World, Env, write, write_self}
use page_spy_api.World.Action.{Done, ◌>>=◌, caught, continue, return_error}
use page_spy_api.World.Action.Respects.{Calm}
use page_spy_api.Listeners.{get_listeners}
use page_spy_api.Listeners.Table.{Without, Shrinks, Shrinks-preorder, Shrinks-heap}
use page_spy_api.Rooms.{is_closed, capacity, package_to_room_message}
use page_spy_api.Emitter.{emit}
use page_spy_api.Emitter.Delivery.{
  Untouched, SameTable, Reachable, emit-Shrinks, emit-Untouched, emit-SameTable, emit-NeverPanics,
  emit-received,
}
use page_spy_api.LocalRoom.Sending.{emit_if, emit_each, later}

-- A connection beside that of the listener `q` at the address `a`: it has an address of its own, at
-- a machine that can be reached, and `q` does not listen there; the loop's test answers on it.
pub record Peer (env : Env) (w : World) (q : Ptr) (a : Address) (test : Connection → Outcome Bool)
    (c : Connection) : Type 0 where
  pub at : Address
  pub address : c.address ≡ some at
  pub other : (at.id == a.id) ≡ false
  pub away : Without q (get_listeners (some at) w)
  pub reachable : Reachable env at
  pub hit : Bool
  pub tested : test c ≡ ok hit

-- What the rounds of the peers leave.
pub record Passed (q : Ptr) (a : Address) (v w : World) : Type 0 where
  pub heap : Untouched q v w
  pub table : SameTable a v w
  pub shrinks : Shrinks v w

Passed-refl : (q : Ptr) (a : Address) (w : World) → Passed q a w w
Passed-refl q a w = record {
  heap = record { at = refl };
  table = record { at = refl };
  shrinks = Shrinks-preorder.reflexive w;
}

Passed-trans :
    (q : Ptr) (a : Address) (u v w : World) → Passed q a u v → Passed q a v w → Passed q a u w
Passed-trans q a u v w h k = record {
  heap = record { at = k.heap.at ∙ h.heap.at };
  table = record { at = k.table.at ∙ h.table.at };
  shrinks = Shrinks-preorder.transitive u v w h.shrinks k.shrinks;
}

returned : (e : Option GoError) (w : World) → (return_error e w).1.heap ≡ w.heap
unfolding ◌>>=◌
returned none w = refl
returned (some e) w = refl

module _ (env : Env) (q : Ptr) (a : Address) (test : Connection → Outcome Bool) where
  Peer-later :
      {v w : World} (c : Connection) → Shrinks v w → Peer env v q a test c → Peer env w q a test c
  Peer-later c h x = record {
    at = x.at;
    address = x.address;
    other = x.other;
    away = h.at q x.at x.away;
    reachable = x.reachable;
    hit = x.hit;
    tested = x.tested;
  }

  pub Peers-later :
      {v w : World} (cs : List Connection)
      → Shrinks v w
      → All (Peer env v q a test) cs
      → All (Peer env w q a test) cs
  Peers-later [] h x = tt
  Peers-later (c ∷ cs) h x = (Peer-later c h x.0, Peers-later cs h x.1)

module _ (env : Env) (pkg : Package) (stays : (pkg.routing_key == close_type) ≡ false) (q : Ptr)
    (a : Address) (test : Connection → Outcome Bool) where
  -- A round of a peer.
  round :
      (w : World) (c : Connection)
      → Peer env w q a test c
      → (hit : Bool)
      → (e : Option GoError) × (w' : World) × (emit_if env pkg c hit w ≡ (ok e, w'))
        × Passed q a w w'
  unfolding emit_if ◌>>=◌
  round w c x false = (none, w, refl, Passed-refl q a w)
  round w c x true = rw x.address (
      finish (emit env (some x.at) pkg w).0
        ((emit-NeverPanics env x.at pkg stays x.reachable).at w))
    where
      w' : World
      w' = (emit env (some x.at) pkg w).1

      passed : Passed q a w w'
      passed = record {
        heap = emit-Untouched env x.at pkg w q x.away;
        table = emit-SameTable env x.at pkg w a x.other stays;
        shrinks = emit-Shrinks env x.at pkg w;
      }

      finish :
          (r : Outcome Done)
          → Calm r
          → (e : Option GoError) × (v : World) × (◌≡◌ {A = Outcome (Option GoError) × World}
              (caught r, w')
              (ok e, v))
            × Passed q a w v
      finish (ok d) k = (none, w', refl, passed)
      finish (err x) k = (some x, w', refl, passed)
      finish panic k = absurd k

  -- The loop gets through the peers to what follows them.
  rounds :
      (cs rest : List Connection) (e : Option GoError) (w : World)
      → All (Peer env w q a test) cs
      → (e' : Option GoError) × (w' : World) × (emit_each env pkg test e (cs ++ rest) w
          ≡ emit_each env pkg test e' rest w')
        × Passed q a w w'
  unfolding emit_each ◌>>=◌
  rounds [] rest e w x = (e, w, refl, Passed-refl q a w)
  rounds (c ∷ cs) rest e w x =
      let (f, v, first, pv) = round w c x.0 x.0.hit in
      let (e', w', others, pw) =
        rounds cs rest (later f e) v (Peers-later env q a test cs pv.shrinks x.1) in
      (e', w', rw (x.0.tested, continue, first, continue) others, Passed-trans q a w v w' pv pw)

  rounds_end :
      (cs : List Connection) (e : Option GoError) (w : World)
      → All (Peer env w q a test) cs
      → (emit_each env pkg test e cs w).1.heap q ≡ w.heap q
  rounds_end cs e w x =
      let (e', w', eq, p) = rounds cs [] e w x in
      ap (λ r. r.1.heap q) (rw append-nil at eq) ∙ (ended e' w' ∙ p.heap.at)
    where
      ended :
          (e' : Option GoError) (w' : World)
          → (emit_each env pkg test e' [] w').1.heap q ≡ w'.heap q
      ended e' w' = unfold emit_each ◌>>=◌ in ap (λ h. h q) (returned e' w')

  own :
      (after : List Connection) (c : Connection) (hit : Bool) (e : Option GoError) (w : World)
      (r : RemoteRoom) (m : Message)
      → All (Peer env w q a test) after
      → c.address ≡ some a
      → test c ≡ ok hit
      → env.self_machine_id ≡ a.machine_id
      → get_listeners (some a) w ≡ q ∷ []
      → w.heap q ≡ remote r
      → is_closed r.basic ≡ false
      → package_to_room_message env pkg ≡ ok m
      → (m.type == close_type) ≡ false
      → length r.messages < capacity
      → (emit_each env pkg test e (c ∷ after) w).1.heap q
        ≡ remote (if hit then record r { messages = r.messages ++ m ∷ [] } else r)
  unfolding emit_each emit_if ◌>>=◌
  own after c false e w r m ps ca tc self l h open_ u t n =
      rw (tc, continue) (rounds_end after e w ps ∙ h)
  own after c true e w r m ps ca tc self l h open_ u t n =
      let got : Object = remote (record r { messages = r.messages ++ m ∷ [] }) in
      rw (tc, continue, ca, emit-received env a pkg w q r m self l h open_ u t n, continue)
        (rounds_end after e (record w { heap = write q got w.heap })
            (Peers-later env q a test after (Shrinks-heap w (write q got w.heap)) ps)
          ∙ write_self q got w.heap)

  -- The round of the listener's own connection, and the peers behind it.
  pub own_round :
      (before after : List Connection) (c : Connection) (hit : Bool) (w : World) (r : RemoteRoom)
      (m : Message)
      → All (Peer env w q a test) before
      → All (Peer env w q a test) after
      → c.address ≡ some a
      → test c ≡ ok hit
      → env.self_machine_id ≡ a.machine_id
      → get_listeners (some a) w ≡ q ∷ []
      → w.heap q ≡ remote r
      → is_closed r.basic ≡ false
      → package_to_room_message env pkg ≡ ok m
      → (m.type == close_type) ≡ false
      → length r.messages < capacity
      → (emit_each env pkg test none (before ++ c ∷ after) w).1.heap q
        ≡ remote (if hit then record r { messages = r.messages ++ m ∷ [] } else r)
  own_round before after c hit w r m bs ps ca tc self l h open_ u t n =
      let (e, v, first, p) = rounds before (c ∷ after) none w bs in
      rw first (
        own after c hit e v r m (Peers-later env q a test after p.shrinks ps) ca tc self
          (p.table.at ∙ l) (p.heap.at ∙ h) open_ u t n)
