-- ===== src/Address.antt =====
-- api/event/event.go: addresses and packages; `newAddressID` is of rpc/address.go.
pub mod RoundTrip
pub mod Tests
use page_spy_api.Base.{ℕ, String, Bool, false, Option, none, some, List, [], ◌∷◌, ◌==◌}
use page_spy_api.Base.Text.{split, concat, dot}
use page_spy_api.Failure.{Outcome, ok, err, panic, text}

pub record Address : Type 0 where
  pub id : String
  pub machine_id : String
  pub local_id : String

abbrev pub to_string : Address → String
to_string a = a.id

-- The method `Equal` on a pointer. A nil argument is tested for; a nil receiver is read.
unfoldable pub equal : Option Address → Option Address → Outcome Bool
equal a none = ok false
equal none (some b) = panic
equal (some a) (some b) = ok (a.id == b.id)

abbrev address_of_words : String → List String → Outcome Address
address_of_words id (l ∷ m ∷ []) = ok (record { id = id; machine_id = m; local_id = l })
address_of_words id _ = err (text (concat "address id " (concat id " is an invalid format")))

unfoldable pub new_address_from_id : String → Outcome Address
new_address_from_id id = address_of_words id (split dot id)

-- fmt.Sprintf("%s.%s", localID, machineID)
unfoldable pub new_address_id : String → String → String
new_address_id local_id machine_id = concat local_id (concat "." machine_id)

-- AddressManager.GeneratorConnectionAddress and GeneratorRoomAddress, with the uuid that was drawn.
unfoldable pub generator_address : String → String → Address
generator_address self_machine_id uuid = record {
  id = new_address_id uuid self_machine_id;
  machine_id = self_machine_id;
  local_id = uuid;
}

pub record Package : Type 0 where
  pub from : Option Address
  pub created_at : ℕ
  pub request_id : String
  pub routing_key : String
  pub content : String
