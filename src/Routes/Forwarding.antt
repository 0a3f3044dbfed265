-- ===== src/Routes/Forwarding.antt =====
-- A request to delete logs of two machines.
use page_spy_api.Base.{
  All, ==-false, String, true, false, List, [], ◌∷◌, ◌==◌, eq_iff, arith, ◌≡◌, ◌≢◌, refl, sym, ◌∙◌,
  inl, inr, Bool-cases,
}
use page_spy_api.Failure.{ok}
use page_spy_api.World.Action.{◌>>=◌}
use page_spy_api.Files.{get_machine_id_by_file_name}
use page_spy_api.Core.{CoreApi, delete_file}
use page_spy_api.Routes.{proxied, is_self_machine, proxy, delete_ids, handle_delete}
use page_spy_api.Routes.Params.{include}

-- The machines that the ids name.
abbrev pub Named : List String → List String → Type 0
Named [] [] = Unit
Named (id ∷ ids) (m ∷ ms) = (get_machine_id_by_file_name id ≡ ok m) × Named ids ms
Named _ _ = ⊥

-- Deleting a file whose id names a machine returns without an error, in any state.
abbrev pub Deletes : {S : Type 0} → CoreApi S → Type 0
Deletes {S} c =
    (id m : String) (s : S)
    → get_machine_id_by_file_name id ≡ ok m
    → (t : S) × (delete_file c id s ≡ (ok tt, t))

module _ {S : Type 0} (c : CoreApi S) (deletes : Deletes c) (machines : List String) where
  HandsOver : List String → S → Type 0
  HandsOver ids s =
      (m : String) × (t : S) × (delete_ids c machines ids s ≡ (ok (proxied m), t))
      × (is_self_machine c m ≡ false)
      × (include machines m ≡ true)

  here :
      (id m : String) (ids : List String) (s : S)
      → get_machine_id_by_file_name id ≡ ok m
      → is_self_machine c m ≡ false
      → include machines m ≡ true
      → HandsOver (id ∷ ids) s
  unfolding HandsOver delete_ids proxy ◌>>=◌
  here id m ids s h k listed = (m, s, rw h (rw k (rw listed refl)), k, listed)

  later :
      (id m : String) (ids : List String) (s : S)
      → get_machine_id_by_file_name id ≡ ok m
      → is_self_machine c m ≡ true
      → ((t : S) → HandsOver ids t)
      → HandsOver (id ∷ ids) s
  unfolding HandsOver delete_ids ◌>>=◌
  later id m ids s h k rest =
      let (t, e) = deletes id m s h in
      let (m', u, f, g, listed) = rest t in (m', u, rw h (rw k (rw e f)), g, listed)

  another_machine :
      (k : String) (ids ms : List String) (s : S)
      → Named ids ms
      → All (λ m. include machines m ≡ true) ms
      → include ms k ≡ true
      → is_self_machine c k ≡ false
      → HandsOver ids s
  another_machine k [] [] s n p h f = absurd cc
  another_machine k [] (m ∷ ms) s n p h f = absurd n
  another_machine k (id ∷ ids) [] s n p h f = absurd n
  another_machine k (id ∷ ids) (m ∷ ms) s n p h f = elim (Bool-cases (is_self_machine c m)) [
    | inr other ↦ here id m ids s n.0 other p.0
    | inl own ↦ later id m ids s n.0 own λ t. another_machine k ids ms t n.1 p.1 (elsewhere own) f
  ]
    where
      differ : is_self_machine c m ≡ true → (m == k) ≡ false
      differ own =
          ground (arith, eq_iff c.self_machine_id m, eq_iff m k, eq_iff c.self_machine_id k)

      elsewhere : is_self_machine c m ≡ true → include ms k ≡ true
      elsewhere own = let d = differ own in rw d at h

  -- A request to delete logs whose ids name machines of the cluster, two of them different, is
  -- answered by no instance: each of them hands it to another machine of the cluster, if deleting is
  -- allowed and a file's deletion succeeds.
  pub handle_delete-forwarded :
      (ids ms : List String) (a b : String) (s : S)
      → Named ids ms
      → All (λ m. include machines m ≡ true) ms
      → include ms a ≡ true
      → include ms b ≡ true
      → a ≢ b
      → (m : String) × (t : S) × (handle_delete c false machines ids s ≡ (ok (proxied m), t))
        × (is_self_machine c m ≡ false)
        × (include machines m ≡ true)
  unfolding handle_delete HandsOver
  handle_delete-forwarded ids ms a b s n p ha hb ne = elim (Bool-cases (is_self_machine c a)) [
    | inr other ↦ another_machine a ids ms s n p ha other
    | inl own ↦ another_machine b ids ms s n p hb (not_both own)
  ]
    where
      not_both : is_self_machine c a ≡ true → is_self_machine c b ≡ false
      not_both own =
          ==-false c.self_machine_id b λ e. ne (sym ((eq_iff c.self_machine_id a).0 own) ∙ e)
