-- ===== src/Address/Tests.antt =====
-- An address that is printed and read back.
use page_spy_api.Base.{◌≡◌, refl}
use page_spy_api.Failure.{ok}
use page_spy_api.Address.{to_string, new_address_from_id, generator_address}
use page_spy_api.Address.RoundTrip.{new_address_from_id-generator_address}

new_address_from_id-generator_address_example :
    new_address_from_id (to_string (generator_address "A0" "uuid"))
    ≡ ok (generator_address "A0" "uuid")
new_address_from_id-generator_address_example =
    new_address_from_id-generator_address "A0" "uuid" (refl, (refl, tt))
      (refl, (refl, (refl, (refl, tt))))
