-- ===== src/Rooms/Listening.antt =====
-- What one listener's `Listen` does to the listener, to the others and to the table of listeners.
use page_spy_api.Base.{
  ◌≡◌, refl, ◌∙◌, Option, List, [], ◌∷◌, ◌++◌, ◌==◌, Bool, true, false, arith, eqb, length,
  Bool-cases, inl, inr, ◌<◌, ◌⊎◌,
}
use page_spy_api.Failure.{GoError, Outcome, ok, err, panic}
use page_spy_api.Address.{Address, Package}
use page_spy_api.Message.{Message, Content, close_type, new_message_content}
use page_spy_api.World.{
  Ptr, BasicRoom, LocalRoom, RemoteRoom, Object, free, local, remote, World, Env, write, write_ne,
}
use page_spy_api.World.Action.{◌>>=◌, ◌>>◌, lift, modify}
use page_spy_api.World.Action.Respects.{Calm}
use page_spy_api.Listeners.{remove_listener, get_listeners}
use page_spy_api.Listeners.Table.{
  Shrinks, Shrinks-preorder, remove_listener-Shrinks, heap-remove_listener,
}
use page_spy_api.Rooms.{
  listen, listen_object, listen_local, listen_remote, after_send, close_remote, close_basic, send,
  capacity, package_to_room_message, unpack,
}

-- What changes: the cell of the listener, and listeners may leave the table.
pub record OnlyAt (p : Ptr) (v w : World) : Type 0 where
  pub cell : (q : Ptr) → eqb q p ≡ false → w.heap q ≡ v.heap q
  pub table : Shrinks v w

OnlyAt-refl : (p : Ptr) (w : World) → OnlyAt p w w
OnlyAt-refl p w = record { cell = λ q h. refl; table = Shrinks-preorder.reflexive w }

OnlyAt-trans : (p : Ptr) (u v w : World) → OnlyAt p u v → OnlyAt p v w → OnlyAt p u w
OnlyAt-trans p u v w h k = record {
  cell = λ q e. k.cell q e ∙ h.cell q e;
  table = Shrinks-preorder.transitive u v w h.table k.table;
}

OnlyAt-write :
    (p : Ptr) (o : Object) (w : World) → OnlyAt p w (record w { heap = write p o w.heap })
unfolding get_listeners
OnlyAt-write p o w = record {
  cell = λ q h. write_ne p q o w.heap h;
  table = record { at = λ q b h. h };
}

OnlyAt-remove_listener :
    (a : Option Address) (p : Ptr) (w : World) → OnlyAt p w (remove_listener a p w).1
OnlyAt-remove_listener a p w = record {
  cell = λ q h. rw (heap-remove_listener a p w);
  table = remove_listener-Shrinks a p w;
}

close_remote-OnlyAt : (w : World) (p : Ptr) (r : RemoteRoom) → OnlyAt p w (close_remote p r w).1
unfolding close_remote ◌>>=◌
close_remote-OnlyAt w p r = finish (close_basic r.basic)
  where
    finish :
        (b : Outcome BasicRoom)
        → OnlyAt p w
            ((lift b >>= λ basic.
                modify
                  (λ v. record v { heap = write p (remote (record r { basic = basic })) v.heap })
                >> remove_listener r.connection.address p)
              w).1
    finish (ok basic) =
        OnlyAt-trans p w _ _ (OnlyAt-write p (remote (record r { basic = basic })) w)
          (OnlyAt-remove_listener r.connection.address p _)
    finish (err e) = OnlyAt-refl p w
    finish panic = OnlyAt-refl p w

after_send-OnlyAt :
    (w : World) (p : Ptr) (r : RemoteRoom) (m : Message) (q : List Message × Bool)
    → OnlyAt p w (after_send p r m q w).1
unfolding after_send ◌>>=◌
after_send-OnlyAt w p r m (q, false) = OnlyAt-refl p w
after_send-OnlyAt w p r m (q, true) = elim (Bool-cases (m.type == close_type)) [
  | inl c ↦
      rw (c, after_send)
        (OnlyAt-trans p w _ _ (OnlyAt-write p (remote (record r { messages = q })) w)
          (close_remote-OnlyAt _ p (record r { messages = q })))
  | inr c ↦ rw (c, after_send) (OnlyAt-write p (remote (record r { messages = q })) w)
]

listen_object-OnlyAt :
    (env : Env) (pkg : Package) (p : Ptr) (w : World) (o : Object)
    → OnlyAt p w (listen_object env p pkg o w).1
unfolding listen_object listen_local listen_remote ◌>>=◌
listen_object-OnlyAt env pkg p w free = OnlyAt-refl p w
listen_object-OnlyAt env pkg p w (local r) = received (package_to_room_message env pkg)
  where
    received : (m : Outcome Message) → OnlyAt p w (listen_local p r m w).1
    received (ok m) = OnlyAt-write p _ w
    received (err x) = OnlyAt-refl p w
    received panic = OnlyAt-refl p w
listen_object-OnlyAt env pkg p w (remote r) = received (package_to_room_message env pkg)
  where
    received : (m : Outcome Message) → OnlyAt p w (listen_remote p r m w).1
    received (ok m) = after_send-OnlyAt w p r m (send m r.messages)
    received (err x) = OnlyAt-refl p w
    received panic = OnlyAt-refl p w

pub listen-OnlyAt :
    (env : Env) (pkg : Package) (p : Ptr) (w : World) → OnlyAt p w (listen env pkg p w).1
unfolding listen
listen-OnlyAt env pkg p w = listen_object-OnlyAt env pkg p w (w.heap p)

-- A message of another type than "close" takes nobody from the table.
pub listeners-listen :
    (env : Env) (pkg : Package) (p : Ptr) (w : World)
    → (pkg.routing_key == close_type) ≡ false
    → (listen env pkg p w).1.listeners ≡ w.listeners
unfolding listen listen_object listen_local listen_remote after_send send package_to_room_message
    ◌>>=◌
listeners-listen env pkg p w h = ground arith

pub send-room :
    (m : Message) (q : List Message) → length q < capacity → send m q ≡ (q ++ m ∷ [], true)
unfolding send
send-room m q h = ground arith

-- A remote room with a place in its channel gets the message.
pub listen-received :
    (env : Env) (pkg : Package) (p : Ptr) (w : World) (r : RemoteRoom) (m : Message)
    → w.heap p ≡ remote r
    → package_to_room_message env pkg ≡ ok m
    → (m.type == close_type) ≡ false
    → length r.messages < capacity
    → listen env pkg p w ≡ (
      ok tt,
      record w { heap = write p (remote (record r { messages = r.messages ++ m ∷ [] })) w.heap },
    )
unfolding listen listen_object listen_remote after_send ◌>>=◌
listen-received env pkg p w r m e u t s =
    rw (e, u, send-room m r.messages s, after_send, t, send-room m r.messages s)

after_send-Calm :
    (p : Ptr) (r : RemoteRoom) (m : Message) (sent : List Message × Bool) (w : World)
    → (m.type == close_type) ≡ false
    → Calm (after_send p r m sent w).0
unfolding after_send ◌>>=◌
after_send-Calm p r m (q, false) w h = tt
after_send-Calm p r m (q, true) w h = rw (h, after_send) tt

-- Only a message of type "close" can make a listener panic, by closing `done` again.
pub listen-Calm :
    (env : Env) (pkg : Package) (p : Ptr) (w : World)
    → (pkg.routing_key == close_type) ≡ false
    → Calm (listen env pkg p w).0
unfolding listen listen_object listen_local listen_remote package_to_room_message ◌>>=◌
listen-Calm env pkg p w h = at_object (w.heap p)
  where
    decoded : GoError ⊎ Content
    decoded = env.unmarshal pkg.content (new_message_content pkg.routing_key)

    to_local : (r : LocalRoom) (u : GoError ⊎ Content) → Calm (listen_local p r (unpack pkg u) w).0
    to_local r (inl e) = tt
    to_local r (inr c) = tt

    to_remote :
        (r : RemoteRoom) (u : GoError ⊎ Content) → Calm (listen_remote p r (unpack pkg u) w).0
    to_remote r (inl e) = tt
    to_remote r (inr c) = after_send-Calm p r m (send m r.messages) w h
      where
        m : Message
        m = record {
          type = pkg.routing_key;
          created_at = pkg.created_at;
          request_id = pkg.request_id;
          content = c;
        }

    at_object : (o : Object) → Calm (listen_object env p pkg o w).0
    at_object free = tt
    at_object (local r) = to_local r decoded
    at_object (remote r) = to_remote r decoded
