-- ===== src/Emitter.antt =====
-- event/local_event.go: `Emit`, `EmitLocal` and `emitRemote` of LocalEventEmitter; event/rpc_event.go.
pub mod Frame
pub mod Delivery
use page_spy_api.Base.{
  String, Bool, true, false, Option, none, some, List, [], ◌∷◌, ◌++◌, ◌==◌, if◌then◌else◌,
}
use page_spy_api.Base.Dict.{lookup}
use page_spy_api.Base.Text.{concat}
use page_spy_api.Failure.{RoomError, set_error, GoError, Outcome, ok, err, panic, text}
use page_spy_api.Address.{Address, Package}
use page_spy_api.World.{Ptr, World, Env}
use page_spy_api.World.Action.{Action, attempt, lift, Done, ◌>>=◌, ◌>>◌, pure, fail, return_error}
use page_spy_api.Listeners.{remove_listener, get_listeners}
use page_spy_api.Rooms.{listen, is_close}

-- The body of EmitLocal's loop: a closed listener is removed and gets nothing.
visit : Env → Option Address → Package → Ptr → Action World Done
visit env a pkg l w = if is_close l w then remove_listener a l w else listen env pkg l w

visit_all : Env → Option Address → Package → List Ptr → Action World Done
unfolding visit
visit_all env a pkg [] = pure tt
visit_all env a pkg (l ∷ ls) = do visit env a pkg l; visit_all env a pkg ls

emit_listed : Env → Option Address → Package → List Ptr → Action World Done
unfolding visit_all
emit_listed env a pkg [] = fail (text (concat "Emit message no Listeners " pkg.content))
emit_listed env a pkg (l ∷ ls) = visit_all env a pkg (l ∷ ls)

-- The loop goes over the list as it was when the call began.
unfoldable pub emit_local : Env → Option Address → Package → Action World Done
unfolding emit_listed
emit_local env a pkg w = emit_listed env a pkg (get_listeners a w) w

-- A machine that has no client gives a nil *RpcClient, whose `Call` panics. The call is recorded in
-- `sent`; what it does on the other instance is not part of this state.
call_client : Address → Package → Option (Address → Package → Option GoError) → Action World Done
call_client a pkg none w = (panic, w)
call_client a pkg (some call) w =
    return_error (call a pkg) (record w { sent = w.sent ++ (a, pkg) ∷ [] })

emit_remote : Env → Address → Package → Action World Done
unfolding call_client
emit_remote env a pkg = call_client a pkg (lookup a.machine_id env.rpc_list)

-- IsSelfMachineAddress reads the machine of a nil address, and panics.
unfoldable pub emit : Env → Option Address → Package → Action World Done
unfolding emit_local emit_remote
emit env none pkg w = (panic, w)
emit env (some a) pkg w =
    if env.self_machine_id == a.machine_id
    then emit_local env (some a) pkg w
    else emit_remote env a pkg w

abbrev machine_of : Option Address → Outcome String
machine_of none = panic
machine_of (some a) = ok a.machine_id

-- event/rpc_event.go: the handler of an emission that came from another instance; the address is
-- read for the log, and the response holds the error.
unfoldable pub rpc_emit : Env → Option Address → Package → Action World (Option RoomError)
unfolding emit_local set_error
rpc_emit env a pkg = do e ← attempt (emit_local env a pkg); lift (machine_of a); pure (set_error e)
