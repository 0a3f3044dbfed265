-- ===== src/Emitter/Delivery.antt =====
-- Whom an emission reaches, and whom it does not touch.
use page_spy_api.Base.{
  ◌≡◌, refl, ◌∙◌, Option, none, some, List, [], ◌∷◌, ◌++◌, ◌==◌, true, false, arith, eqb, length,
  ◌<◌, Bool-cases, inl, inr, eq_iff, ◌⊎◌,
}
use page_spy_api.Base.Dict.{lookup}
use page_spy_api.Failure.{GoError, ok}
use page_spy_api.Address.{Address, Package}
use page_spy_api.Message.{Message, close_type}
use page_spy_api.World.{Ptr, RemoteRoom, remote, World, Env, write}
use page_spy_api.World.Action.{◌>>=◌, return_error}
use page_spy_api.World.Action.Respects.{
  IsPreorder, Respects, Respects-bind, Respects-pure, Respects-fail, Calm, NeverPanics,
  NeverPanics-bind,
}
use page_spy_api.Listeners.{remove_listener, get_listeners}
use page_spy_api.Listeners.Table.{
  Without, Shrinks, Shrinks-preorder, remove_listener-Shrinks, heap-remove_listener,
  get_listeners-remove_listener,
}
use page_spy_api.Rooms.{is_close, is_closed, capacity, package_to_room_message}
use page_spy_api.Rooms.Listening.{listen-OnlyAt, listeners-listen, listen-received, listen-Calm}
use page_spy_api.Emitter.{visit, visit_all, emit_listed, emit_local, call_client, emit_remote, emit}

pub record Untouched (q : Ptr) (v w : World) : Type 0 where
  pub at : w.heap q ≡ v.heap q

Untouched-preorder : (q : Ptr) → IsPreorder (Untouched q)
Untouched-preorder q = record {
  reflexive = λ w. record { at = refl };
  transitive = λ u v w h k. record { at = k.at ∙ h.at };
}

-- The listeners of one address stay.
pub record SameTable (b : Address) (v w : World) : Type 0 where
  pub at : get_listeners (some b) w ≡ get_listeners (some b) v

SameTable-preorder : (b : Address) → IsPreorder (SameTable b)
SameTable-preorder b = record {
  reflexive = λ w. record { at = refl };
  transitive = λ u v w h k. record { at = k.at ∙ h.at };
}

module _ (env : Env) (a : Option Address) (pkg : Package) where
  visit-Shrinks : (l : Ptr) → Respects Shrinks (visit env a pkg l)
  unfolding visit
  visit-Shrinks l = record {
    at = λ w. elim (Bool-cases (is_close l w)) [
      | inl c ↦ rw c (remove_listener-Shrinks a l w)
      | inr c ↦ rw c ((listen-OnlyAt env pkg l w).table)
    ];
  }

  visit_all-Shrinks : (ls : List Ptr) → Respects Shrinks (visit_all env a pkg ls)
  unfolding visit_all
  visit_all-Shrinks [] = Respects-pure Shrinks-preorder tt
  visit_all-Shrinks (l ∷ ls) =
      Respects-bind Shrinks-preorder _ _ (visit-Shrinks l) (λ _. visit_all-Shrinks ls)

  emit_listed-Shrinks : (ls : List Ptr) → Respects Shrinks (emit_listed env a pkg ls)
  unfolding emit_listed
  emit_listed-Shrinks [] = Respects-fail Shrinks-preorder _
  emit_listed-Shrinks (l ∷ ls) = visit_all-Shrinks (l ∷ ls)

  visit-Untouched : (l q : Ptr) → eqb l q ≡ false → Respects (Untouched q) (visit env a pkg l)
  unfolding visit
  visit-Untouched l q h = record {
    at = λ w. elim (Bool-cases (is_close l w)) [
      | inl c ↦ rw c (record { at = rw (heap-remove_listener a l w) })
      | inr c ↦ rw c (record { at = (listen-OnlyAt env pkg l w).cell q (ground arith) })
    ];
  }

  visit_all-Untouched :
      (q : Ptr) (ls : List Ptr) → Without q ls → Respects (Untouched q) (visit_all env a pkg ls)
  unfolding visit_all
  visit_all-Untouched q [] h = Respects-pure (Untouched-preorder q) tt
  visit_all-Untouched q (l ∷ ls) h =
      Respects-bind (Untouched-preorder q) _ _ (visit-Untouched l q h.0)
        (λ _. visit_all-Untouched q ls h.1)

  emit_listed-Untouched :
      (q : Ptr) (ls : List Ptr) → Without q ls → Respects (Untouched q) (emit_listed env a pkg ls)
  unfolding emit_listed
  emit_listed-Untouched q [] h = Respects-fail (Untouched-preorder q) _
  emit_listed-Untouched q (l ∷ ls) h = visit_all-Untouched q (l ∷ ls) h

module _ (env : Env) (a b : Address) (pkg : Package) (other : (a.id == b.id) ≡ false)
    (stays : (pkg.routing_key == close_type) ≡ false) where
  visit-SameTable : (l : Ptr) → Respects (SameTable b) (visit env (some a) pkg l)
  unfolding visit
  visit-SameTable l = record {
    at = λ w. elim (Bool-cases (is_close l w)) [
      | inl c ↦ rw c (record { at = rw (get_listeners-remove_listener a b l w, other) })
      | inr c ↦
          rw c (record { at = unfold get_listeners in rw (listeners-listen env pkg l w stays) })
    ];
  }

  visit_all-SameTable : (ls : List Ptr) → Respects (SameTable b) (visit_all env (some a) pkg ls)
  unfolding visit_all
  visit_all-SameTable [] = Respects-pure (SameTable-preorder b) tt
  visit_all-SameTable (l ∷ ls) =
      Respects-bind (SameTable-preorder b) _ _ (visit-SameTable l) (λ _. visit_all-SameTable ls)

  emit_listed-SameTable : (ls : List Ptr) → Respects (SameTable b) (emit_listed env (some a) pkg ls)
  unfolding emit_listed
  emit_listed-SameTable [] = Respects-fail (SameTable-preorder b) _
  emit_listed-SameTable (l ∷ ls) = visit_all-SameTable (l ∷ ls)

-- An RPC changes neither the heap nor the table.
call_client_frame :
    (a : Address) (pkg : Package) (c : Option (Address → Package → Option GoError)) (w : World)
    → ((call_client a pkg c w).1.heap ≡ w.heap)
      × ((call_client a pkg c w).1.listeners ≡ w.listeners)
unfolding call_client ◌>>=◌
call_client_frame a pkg none w = (refl, refl)
call_client_frame a pkg (some call) w = (ground arith, ground arith)

module _ (R : World → World → Type 0) (env : Env) (a : Address) (pkg : Package) (w : World) where
  -- An emission is local to the machine of the address, or is an RPC.
  emit_cases :
      R w (emit_listed env (some a) pkg (get_listeners (some a) w) w).1
      → ((v : World) → v.heap ≡ w.heap → v.listeners ≡ w.listeners → R w v)
      → R w (emit env (some a) pkg w).1
  unfolding emit emit_local emit_remote
  emit_cases here away = elim (Bool-cases (env.self_machine_id == a.machine_id)) [
    | inl c ↦ rw c here
    | inr c ↦
        let f = call_client_frame a pkg (lookup a.machine_id env.rpc_list) w in
        rw c (away _ f.0 f.1)
  ]

module _ (env : Env) (a : Address) (pkg : Package) (w : World) where
  pub emit-Shrinks : Shrinks w (emit env (some a) pkg w).1
  unfolding get_listeners
  emit-Shrinks =
      emit_cases Shrinks env a pkg w ((emit_listed-Shrinks env (some a) pkg _).at w)
        (λ v h t. record { at = λ q b x. rw t x })

  -- Who does not listen at the address is not touched.
  pub emit-Untouched :
      (q : Ptr) → Without q (get_listeners (some a) w) → Untouched q w (emit env (some a) pkg w).1
  emit-Untouched q h =
      emit_cases (Untouched q) env a pkg w ((emit_listed-Untouched env (some a) pkg q _ h).at w)
        (λ v e t. record { at = rw e })

  pub emit-SameTable :
      (b : Address)
      → (a.id == b.id) ≡ false
      → (pkg.routing_key == close_type) ≡ false
      → SameTable b w (emit env (some a) pkg w).1
  unfolding get_listeners
  emit-SameTable b other stays =
      emit_cases (SameTable b) env a pkg w ((emit_listed-SameTable env a b pkg other stays _).at w)
        (λ v e t. record { at = rw t })

  -- The only listener of an address of this machine, an open remote room with a place in its
  -- channel, gets the message.
  pub emit-received :
      (q : Ptr) (r : RemoteRoom) (m : Message)
      → env.self_machine_id ≡ a.machine_id
      → get_listeners (some a) w ≡ q ∷ []
      → w.heap q ≡ remote r
      → is_closed r.basic ≡ false
      → package_to_room_message env pkg ≡ ok m
      → (m.type == close_type) ≡ false
      → length r.messages < capacity
      → emit env (some a) pkg w ≡ (
        ok tt,
        record w { heap = write q (remote (record r { messages = r.messages ++ m ∷ [] })) w.heap },
      )
  unfolding emit emit_local emit_listed visit_all visit ◌>>=◌
  emit-received q r m s l e c u t n =
      rw ((eq_iff _ _).1 s, l, e, c, listen-received env pkg q w r m e u t n)

remove_listener-Calm : (a : Address) (p : Ptr) (w : World) → Calm (remove_listener (some a) p w).0
unfolding remove_listener
remove_listener-Calm a p w = tt

module _ (env : Env) (a : Address) (pkg : Package)
    (stays : (pkg.routing_key == close_type) ≡ false) where
  visit-NeverPanics : (l : Ptr) → NeverPanics (visit env (some a) pkg l)
  unfolding visit
  visit-NeverPanics l = record {
    at = λ w. elim (Bool-cases (is_close l w)) [
      | inl c ↦ rw c (remove_listener-Calm a l w)
      | inr c ↦ rw c (listen-Calm env pkg l w stays)
    ];
  }

  visit_all-NeverPanics : (ls : List Ptr) → NeverPanics (visit_all env (some a) pkg ls)
  unfolding visit_all ◌>>=◌
  visit_all-NeverPanics [] = record { at = λ w. tt }
  visit_all-NeverPanics (l ∷ ls) =
      NeverPanics-bind _ _ (visit-NeverPanics l) (λ _. visit_all-NeverPanics ls)

  emit_listed-NeverPanics : (ls : List Ptr) → NeverPanics (emit_listed env (some a) pkg ls)
  unfolding emit_listed ◌>>=◌
  emit_listed-NeverPanics [] = record { at = λ w. tt }
  emit_listed-NeverPanics (l ∷ ls) = visit_all-NeverPanics (l ∷ ls)

-- The machine of the address is this one, or has a client.
abbrev pub Reachable : Env → Address → Type 0
Reachable env a =
    ((env.self_machine_id == a.machine_id) ≡ true)
    ⊎ ((call : Address → Package → Option GoError) × (lookup a.machine_id env.rpc_list ≡ some call))

return_error-Calm : (e : Option GoError) (w : World) → Calm (return_error e w).0
unfolding ◌>>=◌
return_error-Calm none w = tt
return_error-Calm (some e) w = tt

call_client-NeverPanics :
    (a : Address) (pkg : Package) (call : Address → Package → Option GoError)
    → NeverPanics (call_client a pkg (some call))
unfolding call_client
call_client-NeverPanics a pkg call = record { at = λ w. return_error-Calm (call a pkg) _ }

-- An emission of a message that closes nothing, to a reachable machine, does not panic.
pub emit-NeverPanics :
    (env : Env) (a : Address) (pkg : Package)
    → (pkg.routing_key == close_type) ≡ false
    → Reachable env a
    → NeverPanics (emit env (some a) pkg)
unfolding emit emit_local emit_remote
emit-NeverPanics env a pkg stays reachable = record {
  at = λ w. at_machine w reachable (Bool-cases (env.self_machine_id == a.machine_id));
}
  where
    at_machine :
        (w : World)
        → Reachable env a
        → ((env.self_machine_id == a.machine_id) ≡ true)
          ⊎ ((env.self_machine_id == a.machine_id) ≡ false)
        → Calm (emit env (some a) pkg w).0
    at_machine w r (inl c) = rw c ((emit_listed-NeverPanics env a pkg stays _).at w)
    at_machine w (inl d) (inr c) = cc
    at_machine w (inr (call, e)) (inr c) =
        rw (c, e, call_client) ((call_client-NeverPanics a pkg call).at w)
