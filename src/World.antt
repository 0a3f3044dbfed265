-- ===== src/World.antt =====
-- The objects of one instance and what its rooms share: the heap of rooms, the table of listeners
-- of event/local_event.go, and the actions over them.
-- A `*localRoom` or `*remoteRoom` is a pointer into the heap, and so is an `event.Listener`.
pub mod Action
use page_spy_api.Base.{
  ℕ, String, Bool, ◌≡◌, false, ◌⊎◌, Option, List, [], arith, eqb, if◌then◌else◌,
}
use page_spy_api.Base.Dict.{Dict}
use page_spy_api.Failure.{GoError}
use page_spy_api.Status.{StatusMachine}
use page_spy_api.Address.{Address, Package}
use page_spy_api.Message.{Connection, Info, Message, Content}

abbrev pub Ptr : Type 0
Ptr = ℕ

-- room/basic_room.go: the status, and whether the channel `done` is closed.
pub record BasicRoom : Type 0 where
  pub machine : StatusMachine
  pub done : Bool

-- room/local_room.go, without the logger and the emitter, which are the world's.
pub record LocalRoom : Type 0 where
  pub basic : BasicRoom
  pub close_reason : String
  pub close_code : String
  pub info : Info
  pub messages : List Message

-- room/remote_room.go; the RPC room that it holds is a copy, of which only the information is used.
pub record RemoteRoom : Type 0 where
  pub basic : BasicRoom
  pub connection : Connection
  pub opt : Info
  pub rpc_info : Option Info
  pub messages : List Message
  pub created_at : ℕ
  pub active_at : ℕ

pub data Object : Type 0 where
  free : Object
  local : LocalRoom → Object
  remote : RemoteRoom → Object

-- `sent` records the calls of RpcEventEmitter.Emit that left this instance.
pub record World : Type 0 where
  pub listeners : Dict (List Ptr)
  pub heap : Ptr → Object
  pub next : Ptr
  pub sent : List (Address × Package)

abbrev pub empty_world : World
empty_world = record { listeners = []; heap = λ p. free; next = 0; sent = [] }

abbrev pub write : Ptr → Object → (Ptr → Object) → Ptr → Object
write p o h q = if eqb q p then o else h q

-- What the rooms call and this repository does not implement: the JSON codec, the clients of the
-- other instances by machine, and this instance's machine id. A client answers a call of
-- RpcEventEmitter.Emit, the network's failures included.
pub record Env : Type 0 where
  pub self_machine_id : String
  pub rpc_list : Dict (Address → Package → Option GoError)
  pub marshal : Content → GoError ⊎ String
  pub unmarshal : String → Content → GoError ⊎ Content

pub write_self : (p : Ptr) (o : Object) (h : Ptr → Object) → write p o h p ≡ o
write_self p o h = ground arith

pub write_ne : (p q : Ptr) (o : Object) (h : Ptr → Object) → eqb q p ≡ false → write p o h q ≡ h q
write_ne p q o h e = rw e
