-- ===== src/Emitter/Frame.antt =====
-- An emission changes only the channels of rooms, the table of listeners and what was sent, and it
-- may close remote rooms.
use page_spy_api.Base.{Option, none, some, List, [], ◌∷◌, ◌==◌, Bool-cases, inl, inr, refl, ◌++◌}
use page_spy_api.Base.Dict.{lookup}
use page_spy_api.Failure.{GoError}
use page_spy_api.Address.{Address, Package}
use page_spy_api.World.{Ptr, World, Env}
use page_spy_api.World.Action.{◌>>=◌, return_error}
use page_spy_api.World.Action.Respects.{Respects, Respects-bind, Respects-pure, Respects-fail}
use page_spy_api.Listeners.{get_listeners}
use page_spy_api.Rooms.{is_close}
use page_spy_api.Rooms.Frame.{Keeps, Kept-refl, Keeps-preorder, listen-Keeps, remove_listener-Keeps}
use page_spy_api.Emitter.{visit, visit_all, emit_listed, emit_local, call_client, emit_remote, emit}

visit-Keeps :
    (env : Env) (a : Option Address) (pkg : Package) (l : Ptr) → Respects Keeps (visit env a pkg l)
unfolding visit
visit-Keeps env a pkg l = record {
  at = λ w. elim (Bool-cases (is_close l w)) [
    | inl c ↦ rw c (remove_listener-Keeps w a l)
    | inr c ↦ rw c ((listen-Keeps env pkg l).at w)
  ];
}

visit_all-Keeps :
    (env : Env) (a : Option Address) (pkg : Package) (ls : List Ptr)
    → Respects Keeps (visit_all env a pkg ls)
unfolding visit_all
visit_all-Keeps env a pkg [] = Respects-pure Keeps-preorder tt
visit_all-Keeps env a pkg (l ∷ ls) =
    Respects-bind Keeps-preorder (visit env a pkg l) _ (visit-Keeps env a pkg l)
      (λ _. visit_all-Keeps env a pkg ls)

emit_listed-Keeps :
    (env : Env) (a : Option Address) (pkg : Package) (ls : List Ptr)
    → Respects Keeps (emit_listed env a pkg ls)
unfolding emit_listed
emit_listed-Keeps env a pkg [] = Respects-fail Keeps-preorder _
emit_listed-Keeps env a pkg (l ∷ ls) = visit_all-Keeps env a pkg (l ∷ ls)

pub emit_local-Keeps :
    (env : Env) (a : Option Address) (pkg : Package) → Respects Keeps (emit_local env a pkg)
unfolding emit_local
emit_local-Keeps env a pkg = record {
  at = λ w. (emit_listed-Keeps env a pkg (get_listeners a w)).at w;
}

call_client-Keeps :
    (a : Address) (pkg : Package) (c : Option (Address → Package → Option GoError))
    → Respects Keeps (call_client a pkg c)
unfolding call_client ◌>>=◌
call_client-Keeps a pkg none = record { at = Keeps-preorder.reflexive }
call_client-Keeps a pkg (some call) = record { at = λ w. answered w (call a pkg) }
  where
    answered :
        (w : World) (e : Option GoError)
        → Keeps w (return_error e (record w { sent = w.sent ++ (a, pkg) ∷ [] })).1
    answered w none = record { next = refl; at = λ p. Kept-refl (w.heap p) }
    answered w (some e) = record { next = refl; at = λ p. Kept-refl (w.heap p) }

pub emit-Keeps : (env : Env) (a : Option Address) (pkg : Package) → Respects Keeps (emit env a pkg)
unfolding emit emit_remote
emit-Keeps env none pkg = record { at = Keeps-preorder.reflexive }
emit-Keeps env (some a) pkg = record {
  at = λ w. elim (Bool-cases (env.self_machine_id == a.machine_id)) [
    | inl c ↦ rw c ((emit_local-Keeps env (some a) pkg).at w)
    | inr c ↦ rw c ((call_client-Keeps a pkg (lookup a.machine_id env.rpc_list)).at w)
  ];
}
