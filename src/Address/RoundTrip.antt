-- ===== src/Address/RoundTrip.antt =====
-- An address and the text that stands for it in JSON, queries and map keys.
use page_spy_api.Base.{String, ◌≡◌, refl, subst, List, [], ◌∷◌}
use page_spy_api.Base.Text.{
  Free, dot, dot_text, split, join, split-append, split-Free, join-split, split-All-Free,
}
use page_spy_api.Base.{All}
use page_spy_api.Failure.{ok, ok-injective}
use page_spy_api.Address.{
  Address, to_string, new_address_from_id, new_address_id, generator_address, address_of_words,
}

-- The address that a machine generates is the one that its text is read back as, provided that
-- neither the uuid nor the machine's id holds a dot.
pub new_address_from_id-generator_address :
    (machine uuid : String)
    → Free dot machine
    → Free dot uuid
    → new_address_from_id (to_string (generator_address machine uuid))
      ≡ ok (generator_address machine uuid)
unfolding new_address_from_id generator_address new_address_id
new_address_from_id-generator_address machine uuid fm fu =
    rw (dot_text machine, split-append dot uuid machine fu, split-Free dot machine fm)

-- The address whose text splits into the given words.
address_of_words-join :
    (id : String) (words : List String) (a : Address)
    → All (Free dot) words
    → join dot words ≡ id
    → address_of_words id words ≡ ok a
    → (to_string a ≡ id)
      × (new_address_id a.local_id a.machine_id ≡ id)
      × Free dot a.local_id
      × Free dot a.machine_id
unfolding new_address_id
address_of_words-join id [] a f j e = cc
address_of_words-join id (w ∷ []) a f j e = cc
address_of_words-join id (l ∷ m ∷ []) a f j e =
    subst
      (λ b.
        (to_string b ≡ id)
        × (new_address_id b.local_id b.machine_id ≡ id)
        × Free dot b.local_id
        × Free dot b.machine_id)
      (ok-injective e) (refl, rw dot_text j, f.0, f.1.0)
address_of_words-join id (w ∷ v ∷ u ∷ ws) a f j e = cc

-- Whatever text is accepted is the local part, a dot and the machine's part, each without a dot,
-- and it is what the address prints as.
pub new_address_from_id_sound :
    (id : String) (a : Address)
    → new_address_from_id id ≡ ok a
    → (to_string a ≡ id)
      × (new_address_id a.local_id a.machine_id ≡ id)
      × Free dot a.local_id
      × Free dot a.machine_id
unfolding new_address_from_id
new_address_from_id_sound id a e =
    address_of_words-join id (split dot id) a (split-All-Free dot id) (join-split dot id) e
