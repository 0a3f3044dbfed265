-- ===== src/Machines/Own.antt =====
-- The id that an instance gives itself.
use page_spy_api.Base.{
  ℕ, suc, ◌<◌, String, true, false, Option, none, some, List, [], ◌∷◌, map, ◌==◌, eq_iff, eq_refl,
  ==-false, arith, ◌≡◌, refl, sym, ap, ◌∙◌, ◌⊎◌, inl, inr, Bool-cases,
}
use page_spy_api.Base.Number.{decimal, decimal-injective}
use page_spy_api.Base.Text.{concat-injective}
use page_spy_api.Base.Dict.{lookup, insert, lookup-insert}
use page_spy_api.Failure.{ok}
use page_spy_api.Machines.{
  MachineAddress, AddressMap, AddressManager, by_key, address_key, machine_name, is_at, named_at,
  self_of, name_machines, get_self_address, new_address_manager, self_address, no_machine,
}
use page_spy_api.Machines.Sort.{sort_strings}
use page_spy_api.Machines.Ids.{machines_of, new_address_manager-ok}

-- The id is missing, or is one of the first i names and that of the instance's own address.
Own : MachineAddress → ℕ → AddressManager → Type 0
Own self i m =
    (m.self_machine_id ≡ "")
    ⊎ ((j : ℕ) × (j < i)
        × (m.self_machine_id ≡ machine_name j)
        × (lookup (machine_name j) m.machine_info ≡ some self))

is_at-eq : (self a : MachineAddress) → is_at self a ≡ true → a ≡ self
is_at-eq self a h = λ i. record { ip = (both h).0 i; port = (both h).1 i }
  where
    both : is_at self a ≡ true → (a.ip ≡ self.ip) × (a.port ≡ self.port)
    both h = ground (arith, eq_iff a.ip self.ip, eq_iff a.port self.port)

other_name : (i j : ℕ) → j < i → (machine_name i == machine_name j) ≡ false
other_name i j h = ==-false (machine_name i) (machine_name j) λ e.
    let same : i ≡ j = decimal-injective i j (concat-injective "A" (decimal i) (decimal j) e) in
    omega arith

named :
    (self : MachineAddress) (i : ℕ) (o : Option MachineAddress) (m : AddressManager)
    → Own self i m
    → Own self (suc i) (record {
      self_machine_id = self_of self (machine_name i) o m.self_machine_id;
      machine_info = named_at (machine_name i) o m.machine_info;
    })
unfolding Own
named self i none m (inl e) = inl e
named self i none m (inr (j, b, e, f)) = inr (j, omega arith, e, f)
named self i (some a) m h = elim (Bool-cases (is_at self a)) [
  | inl t ↦ inr (
    i,
    omega arith,
    rw t refl,
    lookup-insert (machine_name i) (machine_name i) a m.machine_info
        ∙ rw (eq_refl (machine_name i)) (ap some (is_at-eq self a t)),
  )
  | inr t ↦ kept t h
]
  where
    kept :
        is_at self a ≡ false
        → Own self i m
        → Own self (suc i) (record {
          self_machine_id = self_of self (machine_name i) (some a) m.self_machine_id;
          machine_info = insert (machine_name i) a m.machine_info;
        })
    kept t (inl e) = inl (rw t e)
    kept t (inr (j, b, e, f)) = inr (
      j,
      omega arith,
      rw t e,
      lookup-insert (machine_name i) (machine_name j) a m.machine_info ∙ rw (other_name i j b) f,
    )

name_machines-Own :
    (rm : AddressMap) (self : MachineAddress) (i : ℕ) (keys : List String) (m : AddressManager)
    → Own self i m
    → (n : ℕ) × Own self n (name_machines rm self i keys m)
name_machines-Own rm self i [] m h = (i, h)
name_machines-Own rm self i (key ∷ keys) m h =
    name_machines-Own rm self (suc i) keys _ (named self i (lookup key rm) m h)

self_found :
    (s : MachineAddress) (n : ℕ) (m : AddressManager)
    → Own s n m
    → (m.self_machine_id == "") ≡ false
    → self_address m ≡ some s
unfolding self_address Own
self_found s n m (inl e) h = let f : ("" == "") ≡ false = ap (λ x. x == "") (sym e) ∙ h in absurd cc
self_found s n m (inr (j, b, e, f)) h = rw e f

-- An instance of a cluster that starts has an id, and its id names the address that GetSelfAddress
-- found: that of the configuration, or else the first of the list with the local IP.
pub new_address_manager-own :
    (port local_ip : String) (a : MachineAddress) (l : List MachineAddress)
    (self : Option MachineAddress) (x : AddressManager)
    → new_address_manager (ok port) local_ip (a ∷ l) self ≡ ok x
    → (s : MachineAddress) × (get_self_address local_ip (a ∷ l) self ≡ some s)
      × (self_address x ≡ some s)
unfolding Own
new_address_manager-own port local_ip a l self x h =
    let (s, e, made, has_id) = new_address_manager-ok port local_ip a l self x h in
    let (n, own) =
      name_machines-Own (by_key (a ∷ l) []) s 0 (sort_strings (map address_key (a ∷ l))) no_machine
        (inl refl) in
    (s, e, ap self_address (sym made) ∙ self_found s n (machines_of (a ∷ l) s) own has_id)
