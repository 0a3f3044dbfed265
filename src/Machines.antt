-- ===== src/Machines.antt =====
-- rpc/address.go: how an instance gets its machine id and those of all instances. The ports that
-- math/rand draws and the ports that are free are parameters, as is the local IP.
pub mod Sort
pub mod Ids
pub mod Own
pub mod Ports
pub mod Tests
use page_spy_api.Base.{
  ℕ, zero, suc, ◌+◌, String, Bool, true, false, ◌&&◌, Option, none, some, List, [], ◌∷◌, map, ◌==◌,
  if◌then◌else◌,
}
use page_spy_api.Base.Number.{decimal}
use page_spy_api.Base.Text.{concat}
use page_spy_api.Base.Dict.{Dict, lookup, insert}
use page_spy_api.Failure.{GoError, Outcome, ok, err, panic, text}
use page_spy_api.Machines.Sort.{sort_strings}

-- config.Address
pub record MachineAddress : Type 0 where
  pub ip : String
  pub port : String

abbrev pub local_name : String
local_name = "local"

-- getAvailablePort, which starts math/rand anew from the second of each attempt: `draw` is the
-- number below 64511 that is then drawn first.
unfoldable pub get_available_port : (ℕ → ℕ) → (ℕ → Bool) → (ℕ → ℕ) → ℕ → Outcome String
get_available_port draw free second zero = err (text "get available port try times than limit")
get_available_port draw free second (suc limit) =
    let port = draw (second (suc limit)) + 1024 in
    let again = get_available_port draw free second limit in
    if free port then ok (decimal port) else again

abbrev first_with_ip : String → List MachineAddress → Option MachineAddress
first_with_ip ip [] = none
first_with_ip ip (a ∷ l) = let rest = first_with_ip ip l in if a.ip == ip then some a else rest

-- GetSelfAddress, with the list and the address of the configuration
unfoldable pub get_self_address :
    String → List MachineAddress → Option MachineAddress → Option MachineAddress
get_self_address local_ip l (some a) = some a
get_self_address local_ip l none = first_with_ip local_ip l

abbrev pub AddressMap : Type 0
AddressMap = Dict MachineAddress

-- AddressManager
pub record AddressManager : Type 0 where
  pub self_machine_id : String
  pub machine_info : AddressMap

abbrev pub address_key : MachineAddress → String
address_key a = concat a.ip (concat ":" a.port)

-- The first loop of NewAddressManager: rm
abbrev pub by_key : List MachineAddress → AddressMap → AddressMap
by_key [] m = m
by_key (a ∷ l) m = by_key l (insert (address_key a) a m)

abbrev pub machine_name : ℕ → String
machine_name i = concat "A" (decimal i)

abbrev is_at : MachineAddress → MachineAddress → Bool
is_at self a = a.ip == self.ip && a.port == self.port

abbrev pub named_at : String → Option MachineAddress → AddressMap → AddressMap
named_at name none m = m
named_at name (some a) m = insert name a m

abbrev pub self_of : MachineAddress → String → Option MachineAddress → String → String
self_of self name none id = id
self_of self name (some a) id = if is_at self a then name else id

-- The second loop, from the i-th key on. Every key is that of an address in rm.
abbrev pub name_machines :
    AddressMap → MachineAddress → ℕ → List String → AddressManager → AddressManager
name_machines rm self i [] m = m
name_machines rm self i (key ∷ keys) m = name_machines rm self (suc i) keys (record {
  self_machine_id = self_of self (machine_name i) (lookup key rm) m.self_machine_id;
  machine_info = named_at (machine_name i) (lookup key rm) m.machine_info;
})

abbrev not_listed : String → GoError
not_listed ip = text (
    concat "multi-instance deploy failed, IP "
      (concat ip " not found in instances list of configuration"))

-- NewAddressManager behind the test of selfId
abbrev pub checked : AddressManager → Outcome AddressManager
checked m =
    if m.self_machine_id == ""
    then err (text "multi-instance deploy failed, generate local machine ID failed")
    else ok m

abbrev pub no_machine : AddressManager
no_machine = record { self_machine_id = ""; machine_info = [] }

abbrev pub manager_of :
    String → List MachineAddress → Option MachineAddress → Outcome AddressManager
manager_of local_ip l none = err (not_listed local_ip)
manager_of local_ip l (some self) =
    checked (name_machines (by_key l []) self 0 (sort_strings (map address_key l)) no_machine)

abbrev local_manager : String → AddressManager
local_manager port = record {
  self_machine_id = local_name;
  machine_info = (local_name, record { ip = "127.0.0.1"; port = port }) ∷ [];
}

-- NewAddressManager, with the port of getAvailablePortWithLimit
unfoldable pub new_address_manager :
    Outcome String → String → List MachineAddress → Option MachineAddress → Outcome AddressManager
unfolding get_self_address
new_address_manager (err e) local_ip l self = err e
new_address_manager panic local_ip l self = panic
new_address_manager (ok port) local_ip [] self = ok (local_manager port)
new_address_manager (ok port) local_ip (a ∷ l) self =
    manager_of local_ip (a ∷ l) (get_self_address local_ip (a ∷ l) self)

-- AddressManager.GetSelfAddress
unfoldable pub self_address : AddressManager → Option MachineAddress
self_address m = lookup m.self_machine_id m.machine_info
