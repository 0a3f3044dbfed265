-- ===== src/Machines/Ids.antt =====
-- The machine ids of a cluster: every instance gives the same ids, in whatever order its
-- configuration lists the addresses, and its own id names its own address.
use mathlib.Core.List.{Permᴰ}
use mathlib.Core.Path.{ap₂}
use page_spy_api.Base.{
  ℕ, suc, String, Bool, true, false, Option, none, some, List, [], ◌∷◌, map, ◌==◌, eq_iff,
  if◌then◌else◌, ◌≡◌, refl, sym, ap, subst, All, ◌∙◌, inl, inr, Bool-cases,
}
use page_spy_api.Base.Text.{Free, split, split-append, concat, concat-injective, colon, colon_text}
use page_spy_api.Base.Dict.{lookup, insert, lookup-insert}
use page_spy_api.Failure.{ok, err, text, ok-injective}
use page_spy_api.Machines.{
  MachineAddress, AddressMap, AddressManager, address_key, by_key, machine_name, named_at,
  name_machines, no_machine, manager_of, checked, get_self_address, new_address_manager,
}
use page_spy_api.Machines.Sort.{sort_strings, sort_strings-Permᴰ}

-- Two addresses of one key are one address, in a list and beside it.
abbrev pub Agree : MachineAddress → MachineAddress → Type 0
Agree a b = address_key a ≡ address_key b → a ≡ b

abbrev last_with : String → List MachineAddress → Option MachineAddress → Option MachineAddress
last_with k [] o = o
last_with k (a ∷ l) o = last_with k l (if address_key a == k then some a else o)

lookup-by_key :
    (k : String) (l : List MachineAddress) (m : AddressMap)
    → lookup k (by_key l m) ≡ last_with k l (lookup k m)
lookup-by_key k [] m = refl
lookup-by_key k (a ∷ l) m =
    lookup-by_key k l (insert (address_key a) a m)
    ∙ ap (last_with k l) (lookup-insert (address_key a) k a m)

abbrev pub PlainIp : MachineAddress → Type 0
PlainIp a = Free colon a.ip

abbrev first_word : List String → String
first_word [] = ""
first_word (w ∷ ws) = w

split-key :
    (a : MachineAddress) → PlainIp a → split colon (address_key a) ≡ a.ip ∷ split colon a.port
split-key a h = rw (colon_text a.port) (split-append colon a.ip a.port h)

-- If no IP holds a colon, a key belongs to one address.
Agree-PlainIp : (a b : MachineAddress) → PlainIp a → PlainIp b → Agree a b
Agree-PlainIp a b h k e = λ i. record { ip = ips i; port = ports i }
  where
    ips : a.ip ≡ b.ip
    ips = ap first_word (sym (split-key a h) ∙ ap (split colon) e ∙ split-key b k)

    ports : a.port ≡ b.port
    ports = concat-injective ":" a.port b.port (
        concat-injective a.ip (concat ":" a.port) (concat ":" b.port)
          (e ∙ ap (λ x. concat x (concat ":" b.port)) (sym ips)))

All-Permᴰ : {l m : List MachineAddress} → Permᴰ l m → All PlainIp l → All PlainIp m
All-Permᴰ Permᴰ.nil h = tt
All-Permᴰ (Permᴰ.cons e p) h = (subst PlainIp e h.0, All-Permᴰ p h.1)
All-Permᴰ (Permᴰ.swap e f) h = (subst PlainIp f h.1.0, (subst PlainIp e h.0, h.1.1))
All-Permᴰ (Permᴰ.trans p q) h = All-Permᴰ q (All-Permᴰ p h)

two_ways :
    (k : String) (a b : MachineAddress) (o : Option MachineAddress)
    → Agree a b
    → (if address_key b == k then some b else (if address_key a == k then some a else o))
      ≡ (if address_key a == k then some a else (if address_key b == k then some b else o))
two_ways k a b o h = elim (Bool-cases (address_key a == k)) [
  | inl p ↦ elim (Bool-cases (address_key b == k)) [
    | inl q ↦ rw (p, q) (ap some (sym (h ((eq_iff _ _).0 p ∙ sym ((eq_iff _ _).0 q)))))
    | inr q ↦ rw (p, q) refl
  ]
  | inr p ↦ rw p refl
]

last_with-Permᴰ :
    (k : String) {l m : List MachineAddress}
    → Permᴰ l m
    → All PlainIp l
    → (o : Option MachineAddress) → last_with k l o ≡ last_with k m o
last_with-Permᴰ k Permᴰ.nil h o = refl
last_with-Permᴰ k (Permᴰ.cons {a} {b} {l₁} {l₂} e p) h o =
    last_with-Permᴰ k p h.1 (if address_key a == k then some a else o)
    ∙ ap (λ x. last_with k l₂ (if address_key x == k then some x else o)) e
last_with-Permᴰ k (Permᴰ.swap {a} {b} {a'} {b'} {l} e f) h o =
    ap (last_with k l) (two_ways k a b o (Agree-PlainIp a b h.0 h.1.0))
    ∙ ap₂
        (λ x y.
          last_with k l
            (if address_key x == k then some x else (if address_key y == k then some y else o)))
        e f
last_with-Permᴰ k (Permᴰ.trans p q) h o =
    last_with-Permᴰ k p h o ∙ last_with-Permᴰ k q (All-Permᴰ p h) o

map-Permᴰ : {l m : List MachineAddress} → Permᴰ l m → Permᴰ (map address_key l) (map address_key m)
map-Permᴰ Permᴰ.nil = Permᴰ.nil
map-Permᴰ (Permᴰ.cons e p) = Permᴰ.cons (ap address_key e) (map-Permᴰ p)
map-Permᴰ (Permᴰ.swap e f) = Permᴰ.swap (ap address_key e) (ap address_key f)
map-Permᴰ (Permᴰ.trans p q) = Permᴰ.trans (map-Permᴰ p) (map-Permᴰ q)

-- The ids do not depend on who the instance is, nor on rm but for what it holds of each key.
same_info :
    (rm rm' : AddressMap) (self self' : MachineAddress) (i : ℕ) (keys : List String)
    (m m' : AddressManager)
    → ((k : String) → lookup k rm ≡ lookup k rm')
    → m.machine_info ≡ m'.machine_info
    → (name_machines rm self i keys m).machine_info
      ≡ (name_machines rm' self' i keys m').machine_info
same_info rm rm' self self' i [] m m' h e = e
same_info rm rm' self self' i (key ∷ keys) m m' h e =
    same_info rm rm' self self' (suc i) keys _ _ h (ap₂ (named_at (machine_name i)) (h key) e)

-- What an instance finds out of a list and its own address.
abbrev pub machines_of : List MachineAddress → MachineAddress → AddressManager
machines_of l self =
    name_machines (by_key l []) self 0 (sort_strings (map address_key l)) no_machine

machines_of-Permᴰ :
    {l m : List MachineAddress} (self self' : MachineAddress)
    → Permᴰ l m
    → All PlainIp l
    → (machines_of l self).machine_info ≡ (machines_of m self').machine_info
unfolding lookup
machines_of-Permᴰ {l} {m} self self' p h =
    same_info (by_key l []) (by_key m []) self self' 0 (sort_strings (map address_key l)) no_machine
      no_machine
      (λ k. lookup-by_key k l [] ∙ last_with-Permᴰ k p h none ∙ sym (lookup-by_key k m [])) refl
    ∙ ap (λ keys. (name_machines (by_key m []) self' 0 keys no_machine).machine_info)
        (sort_strings-Permᴰ (map-Permᴰ p))

-- What a manager that is returned was made of.
checked-ok :
    (m x : AddressManager) → checked m ≡ ok x → (m ≡ x) × ((m.self_machine_id == "") ≡ false)
checked-ok m x = go (m.self_machine_id == "") refl
  where
    go :
        (b : Bool)
        → (m.self_machine_id == "") ≡ b
        → (if b
            then err (text "multi-instance deploy failed, generate local machine ID failed")
            else ok m)
          ≡ ok x
        → (m ≡ x) × ((m.self_machine_id == "") ≡ false)
    go true e h = absurd cc
    go false e h = (ok-injective h, e)

pub new_address_manager-ok :
    (port local_ip : String) (a : MachineAddress) (l : List MachineAddress)
    (self : Option MachineAddress) (x : AddressManager)
    → new_address_manager (ok port) local_ip (a ∷ l) self ≡ ok x
    → (s : MachineAddress) × (get_self_address local_ip (a ∷ l) self ≡ some s)
      × (machines_of (a ∷ l) s ≡ x)
      × ((machines_of (a ∷ l) s).self_machine_id == "" ≡ false)
unfolding new_address_manager
new_address_manager-ok port local_ip a l self x = go (get_self_address local_ip (a ∷ l) self) refl
  where
    go :
        (o : Option MachineAddress)
        → get_self_address local_ip (a ∷ l) self ≡ o
        → manager_of local_ip (a ∷ l) o ≡ ok x
        → (s : MachineAddress) × (get_self_address local_ip (a ∷ l) self ≡ some s)
          × (machines_of (a ∷ l) s ≡ x)
          × ((machines_of (a ∷ l) s).self_machine_id == "" ≡ false)
    go none e h = absurd cc
    go (some s) e h =
        let (made, has_id) = checked-ok (machines_of (a ∷ l) s) x h in (s, e, made, has_id)

-- Two instances whose configurations list the same addresses, in any order and none with a colon in
-- its IP, give the same machine ids to the same addresses, if both start.
pub new_address_manager-same_ids :
    (port port' local_ip local_ip' : String) (a b : MachineAddress) (l m : List MachineAddress)
    (self self' : Option MachineAddress) (x y : AddressManager)
    → Permᴰ (a ∷ l) (b ∷ m)
    → All PlainIp (a ∷ l)
    → new_address_manager (ok port) local_ip (a ∷ l) self ≡ ok x
    → new_address_manager (ok port') local_ip' (b ∷ m) self' ≡ ok y
    → x.machine_info ≡ y.machine_info
new_address_manager-same_ids port port' local_ip local_ip' a b l m self self' x y p h e f =
    let (s, _, mine, _) = new_address_manager-ok port local_ip a l self x e in
    let (s', _, theirs, _) = new_address_manager-ok port' local_ip' b m self' y f in
    sym (ap (λ t. t.machine_info) mine)
    ∙ machines_of-Permᴰ s s' p h
    ∙ ap (λ t. t.machine_info) theirs
