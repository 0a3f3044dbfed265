-- ===== src/World/Action.antt =====
-- Actions over a state: Go code that may return an error or panic, and changes the state anyway.
-- An error and a panic end the rest of a `do` block; `attempt` hands an error over as a value.
pub mod Respects
use page_spy_api.Base.{Option, none, some, ◌≡◌, ◌⊎◌, inl, inr, refl}
use page_spy_api.Failure.{GoError, Outcome, ok, err, panic}

abbrev pub Action {ℓ} : Type ℓ → Type ℓ → Type ℓ
Action S A = S → Outcome A × S

module _ {ℓ} {S A : Type ℓ} where
  pub pure : A → Action S A
  pure a s = (ok a, s)

  pub lift : Outcome A → Action S A
  lift o s = (o, s)

  pub halt : Action S A
  halt s = (panic, s)

  pub fail : GoError → Action S A
  fail e s = (err e, s)

-- What an action with no result returns.
abbrev pub Done : Type 0
Done = Unit {0}

pub modify : {S : Type 0} → (S → S) → Action S Done
modify f s = (ok tt, f s)

abbrev pub caught : Outcome Done → Outcome (Option GoError)
caught (ok _) = ok none
caught (err e) = ok (some e)
caught panic = panic

-- err := m
pub attempt : {S : Type 0} → Action S Done → Action S (Option GoError)
attempt m s = let (r, s') = m s in (caught r, s')

-- return err
pub return_error : {S : Type 0} → Option GoError → Action S Done
return_error none s = (ok tt, s)
return_error (some e) s = (err e, s)

module _ {ℓ} {S A B : Type ℓ} where
  abbrev pub continue : Outcome A → (A → Action S B) → Action S B
  continue (ok a) f s = f a s
  continue (err e) f s = (err e, s)
  continue panic f s = (panic, s)

  infixl 5 ◌>>=◌ ◌>>◌
  -- opening this opens the actions above too
  unfoldable pub ◌>>=◌ : Action S A → (A → Action S B) → Action S B
  unfolding pure lift halt fail modify attempt return_error
  ◌>>=◌ m f s = let (r, s') = m s in continue r f s'

  abbrev pub ◌>>◌ : Action S A → Action S B → Action S B
  m >> n = m >>= λ _. n

  -- What follows a call that returned.
  pub bind-ok :
      (m : Action S A) (f : A → Action S B) (s t : S) (a : A)
      → m s ≡ (ok a, t)
      → (m >>= f) s ≡ f a t
  unfolding ◌>>=◌
  bind-ok m f s t a e = rw (e, continue)

  -- A call that failed ends the rest.
  pub bind-err :
      (m : Action S A) (f : A → Action S B) (s t : S) (e : GoError)
      → m s ≡ (err e, t)
      → (m >>= f) s ≡ (err e, t)
  unfolding ◌>>=◌
  bind-err m f s t e h = rw (h, continue)

  -- A call that panicked ends the rest.
  pub bind-panic :
      (m : Action S A) (f : A → Action S B) (s t : S) → m s ≡ (panic, t) → (m >>= f) s ≡ (panic, t)
  unfolding ◌>>=◌
  bind-panic m f s t e = rw (e, continue)

module _ {S A B : Type 0} where
  -- A sequence that returned is two calls that returned.
  pub bind_inv :
      (m : Action S A) (f : A → Action S B) (s t : S) (b : B)
      → (m >>= f) s ≡ (ok b, t)
      → (a : A) × (s' : S) × (m s ≡ (ok a, s')) × (f a s' ≡ (ok b, t))
  unfolding ◌>>=◌
  bind_inv m f s t b = go (m s) refl
    where
      go :
          (p : Outcome A × S)
          → m s ≡ p
          → continue p.0 f p.1 ≡ (ok b, t)
          → (a : A) × (s' : S) × (m s ≡ (ok a, s')) × (f a s' ≡ (ok b, t))
      go (ok a, s') e h = (a, s', e, h)
      go (err e', s') e h = absurd cc
      go (panic, s') e h = absurd cc

  pub lift_inv :
      (o : Outcome A) (f : A → Action S B) (s t : S) (b : B)
      → (lift o >>= f) s ≡ (ok b, t)
      → (a : A) × (o ≡ ok a) × (f a s ≡ (ok b, t))
  unfolding ◌>>=◌
  lift_inv (ok a) f s t b h = (a, refl, h)
  lift_inv (err e) f s t b h = absurd cc
  lift_inv panic f s t b h = absurd cc

module _ {ℓ} {S A : Type ℓ} where
  pub fail-eq : (e : GoError) (s : S) → fail {S = S} {A = A} e s ≡ (err e, s)
  unfolding ◌>>=◌
  fail-eq e s = refl

module _ {ℓ} {S A B : Type ℓ} where
  pub lift-err : (e : GoError) (f : A → Action S B) (s : S) → (lift (err e) >>= f) s ≡ (err e, s)
  unfolding ◌>>=◌
  lift-err e f s = refl

  pub bind-lift : (a : A) (f : A → Action S B) (s : S) → (lift (ok a) >>= f) s ≡ f a s
  unfolding ◌>>=◌
  bind-lift a f s = refl

module _ {S B : Type 0} where
  pub bind-modify : (g : S → S) (f : Done → Action S B) (s : S) → (modify g >>= f) s ≡ f tt (g s)
  unfolding ◌>>=◌
  bind-modify g f s = refl

-- To try a call and go on whatever it returned is to make the call.
pub attempt_state :
    {S : Type 0} (m : Action S Done) (s : S) → ((attempt m >>= λ e. pure tt) s).1 ≡ (m s).1
unfolding ◌>>=◌
attempt_state {S} m s = after (m s).0 (m s).1
  where
    after :
        (r : Outcome Done) (t : S)
        → (continue (caught r) (λ (e : Option GoError). pure {S = S} {A = Done} tt) t).1 ≡ t
    after (ok d) t = refl
    after (err e) t = refl
    after panic t = refl

-- A call whose error is only logged returns or panics.
pub attempt_returns :
    {S : Type 0} (m : Action S Done) (s : S)
    → ((attempt m >>= λ e. pure tt) s ≡ (ok tt, (m s).1))
      ⊎ ((attempt m >>= λ e. pure tt) s ≡ (panic, (m s).1))
unfolding ◌>>=◌
attempt_returns {S} m s = after (m s).0 (m s).1
  where
    then_on : Outcome Done → S → Outcome Done × S
    then_on r t = continue (caught r) (λ (e : Option GoError). pure {S = S} {A = Done} tt) t

    after : (r : Outcome Done) (t : S) → (then_on r t ≡ (ok tt, t)) ⊎ (then_on r t ≡ (panic, t))
    after (ok d) t = inl refl
    after (err e) t = inl refl
    after panic t = inr refl
