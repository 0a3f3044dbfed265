-- ===== src/Machines/Tests.antt =====
-- A cluster of two instances.
use mathlib.Core.List.{Permᴰ}
use page_spy_api.Base.{none, some, [], ◌∷◌, ◌≡◌, refl}
use page_spy_api.Base.Number.{decimal}
use page_spy_api.Base.Dict.{lookup, insert}
use page_spy_api.Failure.{ok}
use page_spy_api.Machines.{
  MachineAddress, AddressMap, AddressManager, get_self_address, new_address_manager, self_address,
}
use page_spy_api.Machines.Ids.{new_address_manager-same_ids}
use page_spy_api.Machines.Own.{new_address_manager-own}

abbrev east : MachineAddress
east = record { ip = "10.0.0.2"; port = "20008" }

abbrev west : MachineAddress
west = record { ip = "10.0.0.1"; port = "20008" }

abbrev both_ids : AddressMap
both_ids = ("A0", west) ∷ ("A1", east) ∷ []

abbrev at_east : AddressManager
at_east = record { self_machine_id = "A1"; machine_info = both_ids }

abbrev at_west : AddressManager
at_west = record { self_machine_id = "A0"; machine_info = both_ids }

starts_east : new_address_manager (ok "4000") "10.0.0.2" (east ∷ west ∷ []) none ≡ ok at_east
unfolding new_address_manager lookup insert decimal
starts_east = refl

starts_west : new_address_manager (ok "4001") "" (west ∷ east ∷ []) (some west) ≡ ok at_west
unfolding new_address_manager lookup insert decimal
starts_west = refl

new_address_manager-same_ids_example : both_ids ≡ both_ids
new_address_manager-same_ids_example =
    new_address_manager-same_ids "4000" "4001" "10.0.0.2" "" east west (west ∷ []) (east ∷ []) none
      (some west) at_east at_west (Permᴰ.swap refl refl)
      (
        (refl, (refl, (refl, (refl, (refl, (refl, (refl, (refl, tt)))))))),
        ((refl, (refl, (refl, (refl, (refl, (refl, (refl, (refl, tt)))))))), tt),
      )
      starts_east starts_west

new_address_manager-own_example :
    (s : MachineAddress) × (get_self_address "10.0.0.2" (east ∷ west ∷ []) none ≡ some s)
    × (self_address at_east ≡ some s)
new_address_manager-own_example =
    new_address_manager-own "4000" "10.0.0.2" east (west ∷ []) none at_east starts_east
