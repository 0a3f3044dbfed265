-- ===== src/World/Action/Respects.antt =====
-- Relations between the state before an action and the state after it, one rule for each way to
-- build an action.
use page_spy_api.Base.{Option, none, some, Bool, true, false, if◌then◌else◌, ◌≡◌, refl}
use page_spy_api.Failure.{GoError, Outcome, ok, err, panic}
use page_spy_api.World.Action.{
  Action, Done, pure, lift, halt, fail, attempt, return_error, ◌>>=◌, continue, caught,
}

pub record IsPreorder {S : Type 0} (R : S → S → Type 0) : Type 0 where
  pub reflexive : (s : S) → R s s
  pub transitive : (s t u : S) → R s t → R t u → R s u

-- Whatever `m` returns, it leaves a state that `R` relates to the one it found.
pub record Respects {S A : Type 0} (R : S → S → Type 0) (m : Action S A) : Type 0 where
  pub at : (s : S) → R s (m s).1

module _ {S A : Type 0} {R : S → S → Type 0} (o : IsPreorder R) where
  pub Respects-pure : (a : A) → Respects R (pure {S = S} a)
  unfolding ◌>>=◌
  Respects-pure a = record { at = o.reflexive }

  pub Respects-lift : (a : Outcome A) → Respects R (lift {S = S} a)
  unfolding ◌>>=◌
  Respects-lift a = record { at = o.reflexive }

  pub Respects-halt : Respects R (halt {S = S} {A = A})
  unfolding ◌>>=◌
  Respects-halt = record { at = o.reflexive }

  pub Respects-fail : (e : GoError) → Respects R (fail {S = S} {A = A} e)
  unfolding ◌>>=◌
  Respects-fail e = record { at = o.reflexive }

module _ {S : Type 0} {R : S → S → Type 0} where
  pub Respects-return_error :
      IsPreorder R → (e : Option GoError) → Respects R (return_error {S = S} e)
  unfolding ◌>>=◌
  Respects-return_error o none = record { at = o.reflexive }
  Respects-return_error o (some e) = record { at = o.reflexive }

  pub Respects-attempt : (m : Action S Done) → Respects R m → Respects R (attempt m)
  unfolding ◌>>=◌
  Respects-attempt m h = record { at = h.at }

module _ {S A : Type 0} {R : S → S → Type 0} where
  pub Respects-if :
      (b : Bool) (m n : Action S A)
      → (b ≡ true → Respects R m)
      → (b ≡ false → Respects R n)
      → Respects R (if b then m else n)
  Respects-if true m n km kn = km refl
  Respects-if false m n km kn = kn refl

module _ {S A B : Type 0} {R : S → S → Type 0} (o : IsPreorder R) where
  follow :
      (r : Outcome A) (f : A → Action S B) (s t : S)
      → R s t
      → ((a : A) → Respects R (f a))
      → R s ((lift r >>= f) t).1
  unfolding ◌>>=◌
  follow (ok a) f s t h kf = o.transitive s t _ h ((kf a).at t)
  follow (err e) f s t h kf = h
  follow panic f s t h kf = h

  pub Respects-bind :
      (m : Action S A) (f : A → Action S B)
      → Respects R m
      → ((a : A) → Respects R (f a))
      → Respects R (m >>= f)
  unfolding ◌>>=◌
  Respects-bind m f km kf = record { at = λ s. let (r, t) = m s in follow r f s t (km.at s) kf }

-- Relations that compose to a third, which the first one implies.
module _ {S A B : Type 0} {Q P R : S → S → Type 0} (steps : (s t u : S) → Q s t → P t u → R s u)
    (finer : (s t : S) → Q s t → R s t) where
  follow_after :
      (r : Outcome A) (f : A → Action S B) (s t : S)
      → Q s t
      → ((a : A) → Respects P (f a))
      → R s ((lift r >>= f) t).1
  unfolding ◌>>=◌
  follow_after (ok a) f s t h kf = steps s t _ h ((kf a).at t)
  follow_after (err e) f s t h kf = finer s t h
  follow_after panic f s t h kf = finer s t h

  pub Respects-before :
      (m : Action S A) (f : A → Action S B)
      → Respects Q m
      → ((a : A) → Respects P (f a))
      → Respects R (m >>= f)
  unfolding ◌>>=◌
  Respects-before m f km kf = record {
    at = λ s. let (r, t) = m s in follow_after r f s t (km.at s) kf;
  }

pub ruleset respects_rules = (
  Respects-pure, Respects-lift, Respects-halt, Respects-fail, Respects-return_error,
  Respects-attempt, Respects-if, Respects-bind,
)

-- The call returns or fails, but does not panic.
abbrev pub Calm : {A : Type 0} → Outcome A → Type 0
Calm (ok a) = Unit
Calm (err e) = Unit
Calm panic = ⊥

pub record NeverPanics {S A : Type 0} (m : Action S A) : Type 0 where
  pub at : (s : S) → Calm (m s).0

module _ {S A B : Type 0} where
  follow-Calm :
      (r : Outcome A) (f : A → Action S B) (t : S)
      → Calm r
      → ((a : A) → NeverPanics (f a))
      → Calm ((lift r >>= f) t).0
  unfolding ◌>>=◌
  follow-Calm (ok a) f t h kf = (kf a).at t
  follow-Calm (err e) f t h kf = tt
  follow-Calm panic f t h kf = absurd h

  pub NeverPanics-bind :
      (m : Action S A) (f : A → Action S B)
      → NeverPanics m
      → ((a : A) → NeverPanics (f a))
      → NeverPanics (m >>= f)
  unfolding ◌>>=◌
  NeverPanics-bind m f km kf = record {
    at = λ s. let (r, t) = m s in follow-Calm r f t (km.at s) kf;
  }

-- A call that does not panic and whose error is only logged returns.
pub attempt-Calm :
    {S : Type 0} (m : Action S Done) (s : S)
    → Calm (m s).0
    → (attempt m >>= λ e. pure tt) s ≡ (ok tt, (m s).1)
unfolding ◌>>=◌
attempt-Calm {S} m s h = after (m s).0 (m s).1 h
  where
    after :
        (r : Outcome Done) (t : S)
        → Calm r
        → continue (caught r) (λ (e : Option GoError). pure {S = S} {A = Done} tt) t ≡ (ok tt, t)
    after (ok d) t h = refl
    after (err e) t h = refl
    after panic t h = absurd h
