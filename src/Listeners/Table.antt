-- ===== src/Listeners/Table.antt =====
-- What the table of listeners holds after a call.
use page_spy_api.Base.{
  ◌≡◌, refl, false, none, some, List, [], ◌∷◌, ◌++◌, ◌==◌, eqb, eq_iff, arith, if◌then◌else◌,
  Option-cases, inl, inr, Option, All, Bool-cases, subst, eq_refl,
}
use page_spy_api.Base.Dict.{lookup, lookup-insert}
use page_spy_api.Failure.{ok}
use page_spy_api.Address.{Address}
use page_spy_api.World.{Ptr, Object, World}
use page_spy_api.World.Action.Respects.{IsPreorder}
use page_spy_api.Listeners.{
  listen, remove_listener, get_listeners, without, already_listed, add_listed, remove_listed,
  or_empty,
}

-- The check for a listener that is already there never finds one.
already_listed-false : (ls : List Ptr) → already_listed ls ≡ false
already_listed-false [] = refl
already_listed-false (l ∷ ls) = already_listed-false ls

-- Listening at `a` adds the listener behind those of `a`, also if it is listed already, and leaves
-- every other address as it was.
pub get_listeners-listen :
    (a b : Address) (p : Ptr) (w : World)
    → get_listeners (some b) (listen (some a) p w).1
      ≡ (if a.id == b.id then get_listeners (some a) w ++ p ∷ [] else get_listeners (some b) w)
unfolding listen get_listeners
get_listeners-listen a b p w =
    rw (already_listed-false (or_empty (lookup a.id w.listeners)), add_listed)
      (ground
        (arith, lookup-insert a.id b.id (or_empty (lookup a.id w.listeners) ++ p ∷ []) w.listeners))

-- Removing takes every occurrence of the listener at that address, and touches no other address.
pub get_listeners-remove_listener :
    (a b : Address) (p : Ptr) (w : World)
    → get_listeners (some b) (remove_listener (some a) p w).1
      ≡ (if a.id == b.id then without p (get_listeners (some a) w) else get_listeners (some b) w)
unfolding remove_listener get_listeners
get_listeners-remove_listener a b p w = elim (Option-cases (lookup a.id w.listeners)) [
  | inl e ↦ rw (e, remove_listed) (ground (arith, eq_iff a.id b.id))
  | inr (ls, e) ↦
      rw (e, remove_listed) (ground (arith, lookup-insert a.id b.id (without p ls) w.listeners))
]

-- The listener `q` does not stand in the list.
abbrev pub Without : Ptr → List Ptr → Type 0
Without q = All (λ l. eqb l q ≡ false)

Without-without : (q p : Ptr) (ls : List Ptr) → Without q ls → Without q (without p ls)
Without-without q p [] h = tt
Without-without q p (l ∷ ls) h = elim (Bool-cases (eqb l p)) [
  | inl e ↦ rw e (Without-without q p ls h.1)
  | inr e ↦ rw e (h.0, Without-without q p ls h.1)
]

-- Nobody starts to listen.
pub record Shrinks (v w : World) : Type 0 where
  pub at :
      (q : Ptr) (b : Address)
      → Without q (get_listeners (some b) v)
      → Without q (get_listeners (some b) w)

pub Shrinks-preorder : IsPreorder Shrinks
Shrinks-preorder = record {
  reflexive = λ w. record { at = λ q b h. h };
  transitive = λ u v w h k. record { at = λ q b x. k.at q b (h.at q b x) };
}

same_listeners :
    (w : World) (a b : Address) → a.id ≡ b.id → get_listeners (some b) w ≡ get_listeners (some a) w
unfolding get_listeners
same_listeners w a b e = rw e

removed-Without :
    (w : World) (a b : Address) (p q : Ptr)
    → Without q (get_listeners (some b) w)
    → Without q (get_listeners (some b) (remove_listener (some a) p w).1)
removed-Without w a b p q h =
    rw (get_listeners-remove_listener a b p w) (elim (Bool-cases (a.id == b.id)) [
      | inl e ↦
          rw e
            (Without-without q p _ (subst (Without q) (same_listeners w a b ((eq_iff _ _).0 e)) h))
      | inr e ↦ rw e h
    ])

pub remove_listener-Shrinks :
    (a : Option Address) (p : Ptr) (w : World) → Shrinks w (remove_listener a p w).1
remove_listener-Shrinks none p w = unfold remove_listener in Shrinks-preorder.reflexive w
remove_listener-Shrinks (some a) p w = record { at = λ q b h. removed-Without w a b p q h }

pub heap-remove_listener :
    (a : Option Address) (p : Ptr) (w : World) → (remove_listener a p w).1.heap ≡ w.heap
unfolding remove_listener
heap-remove_listener none p w = refl
heap-remove_listener (some a) p w = refl

pub Shrinks-heap : (w : World) (h : Ptr → Object) → Shrinks w (record w { heap = h })
unfolding get_listeners
Shrinks-heap w h = record { at = λ q b x. x }

Without-self : (p : Ptr) (ls : List Ptr) → Without p (without p ls)
Without-self p [] = tt
Without-self p (l ∷ ls) = elim (Bool-cases (eqb l p)) [
  | inl e ↦ rw e (Without-self p ls)
  | inr e ↦ rw e (e, Without-self p ls)
]

-- Who was removed at an address does not listen there.
pub remove_listener-Without :
    (a : Address) (p : Ptr) (w : World)
    → Without p (get_listeners (some a) (remove_listener (some a) p w).1)
remove_listener-Without a p w =
    rw (get_listeners-remove_listener a a p w, eq_refl a.id) (Without-self p _)

pub remove_listener-ok :
    (a : Address) (p : Ptr) (w : World)
    → remove_listener (some a) p w ≡ (ok tt, (remove_listener (some a) p w).1)
unfolding remove_listener
remove_listener-ok a p w = refl
