-- ===== src/World/Ensures.antt =====
-- Reasoning about actions: what holds of the value and the state that an action returns, put
-- together along `>>=`, and the all-or-nothing rule of a transaction.
use backend_assessment_chall.Prelude.{refl, ◌≡◌}
use backend_assessment_chall.Schema.{Database}
use backend_assessment_chall.World.{
  Action, Exception, Result, World, err, ok, pure, transaction, ◌>>=◌,
}

module _ {A : Type 0} where
  abbrev pub Outcome :
      (Exception → World → Type 0) → (A → World → Type 0) → Result A × World → Type 0
  Outcome E P (ok a, w) = P a w
  Outcome E P (err e, w) = E e w

  -- If the action returns, its value and state satisfy the predicate.
  pub record Ensures (P : A → World → Type 0) (x : Result A × World) : Type 0 where
    pub holds : Outcome (λ e w. Unit {0}) P x

  -- As above; and if it throws, the data base is the one given.
  abbrev pub Atomic : Database → (A → World → Type 0) → Result A × World → Type 0
  Atomic before P x = Outcome (λ e w. w.db ≡ before) P x

  Ensures-close :
      {P : A → World → Type 0} (before : Database) (x : Result A × World)
      → Ensures P x
      → Atomic before P
          (elim x.0 [ ok a ↦ (ok a, x.1) | err e ↦ (err e, record (x.1) { db = before }) ])
  Ensures-close before (ok a, w) p = p.holds
  Ensures-close before (err e, w) p = refl

  pub transaction-Atomic :
      {P : A → World → Type 0} (body : Action A) (w : World)
      → Ensures P (body w)
      → Atomic w.db P (transaction body w)
  transaction-Atomic body w p = Ensures-close w.db (body w) p

  pub Ensures-implies :
      {P Q : A → World → Type 0} (x : Result A × World)
      → Ensures P x
      → ((a : A) (w : World) → P a w → Q a w)
      → Ensures Q x
  Ensures-implies (ok a, w) p f = record { holds = f a w p.holds }
  Ensures-implies (err e, w) p f = record { holds = tt }

  pub Ensures-nothing : (x : Result A × World) → Ensures (λ a w. Unit {0}) x
  Ensures-nothing (ok a, w) = record { holds = tt }
  Ensures-nothing (err e, w) = record { holds = tt }

  pub pure-Ensures : {P : A → World → Type 0} (a : A) (w : World) → P a w → Ensures P (pure a w)
  pure-Ensures a w p = record { holds = p }

module _ {A B : Type 0} {P : A → World → Type 0} {Q : B → World → Type 0} where
  bind_step :
      (x : Result A × World) (f : A → Action B)
      → Ensures P x
      → ((a : A) (w : World) → P a w → Ensures Q (f a w))
      → Ensures Q (elim x.0 [ ok a ↦ f a x.1 | err e ↦ (err e, x.1) ])
  bind_step (ok a, w) f p k = k a w p.holds
  bind_step (err e, w) f p k = record { holds = tt }

  pub >>=-Ensures :
      (m : Action A) (f : A → Action B) (w : World)
      → Ensures P (m w)
      → ((a : A) (w' : World) → P a w' → Ensures Q (f a w'))
      → Ensures Q ((m >>= f) w)
  >>=-Ensures m f w p k = bind_step (m w) f p k

-- A weaker condition on what is returned.
pub Atomic-implies :
    {A : Type 0} (before : Database) (P Q : A → World → Type 0) (x : Result A × World)
    → Atomic before P x
    → ((a : A) (w : World) → P a w → Q a w)
    → Atomic before Q x
Atomic-implies before P Q (ok a, w) p f = f a w p
Atomic-implies before P Q (err e, w) p f = p

ok-injective : {A : Type 0} {a b : A} → ok a ≡ ok b → a ≡ b
ok-injective h = cc

err-injective : (A : Type 0) {a b : Exception} → ◌≡◌ {A = Result A} (err a) (err b) → a ≡ b
err-injective A h = cc

-- An outcome that is known.
pub Outcome-ok :
    {A : Type 0} (E : Exception → World → Type 0) (P : A → World → Type 0) (x : Result A × World)
    (a : A)
    → x.0 ≡ ok a
    → P a x.1
    → Outcome E P x
Outcome-ok E P (ok b, w) a e p = rw (ok-injective e) p
Outcome-ok E P (err b, w) a e p = cc

pub Outcome-err :
    {A : Type 0} (E : Exception → World → Type 0) (P : A → World → Type 0) (x : Result A × World)
    (error : Exception)
    → x.0 ≡ err error
    → E error x.1
    → Outcome E P x
Outcome-err E P (ok b, w) error e p = cc
Outcome-err {A} E P (err b, w) error e p = rw (err-injective A e) p

pub Outcome-implies :
    {A : Type 0} (E E' : Exception → World → Type 0) (P P' : A → World → Type 0)
    (x : Result A × World)
    → Outcome E P x
    → ((e : Exception) (w : World) → E e w → E' e w)
    → ((a : A) (w : World) → P a w → P' a w)
    → Outcome E' P' x
Outcome-implies E E' P P' (ok a, w) p f g = g a w p
Outcome-implies E E' P P' (err e, w) p f g = f e w p
