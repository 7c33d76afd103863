-- ===== src/Host/Outcomes.antt =====
-- What an action may return or throw, with a rule for each way to build an action.
use cvranking.Prelude.{Bool, true, false, if◌then◌else◌}
use cvranking.Host.{World}
use cvranking.Host.Action.{
  Thrown, Result, ok, throw, Action, pure, raise, lift, run, continue, ◌>>=◌,
}

-- `P` of what is returned, `Q` of what is thrown.
abbrev pub Outcome : {A : Type 0} → (A → Type 0) → (Thrown → Type 0) → Result A → Type 0
Outcome P Q (ok a) = P a
Outcome P Q (throw e) = Q e

pub record Gives {A : Type 0} (P : A → Type 0) (Q : Thrown → Type 0) (m : Action A) : Type 0 where
  pub at : (w : World) → Outcome P Q (m w).0

module _ {A : Type 0} {P : A → Type 0} {Q : Thrown → Type 0} where
  pub Gives-pure : (a : A) → P a → Gives P Q (pure a)
  Gives-pure a p = record { at = λ w. p }

  pub Gives-raise : (e : Thrown) → Q e → Gives P Q (raise {A = A} e)
  Gives-raise e q = record { at = λ w. q }

  pub Gives-lift : (r : Result A) → Outcome P Q r → Gives P Q (lift r)
  Gives-lift r h = record { at = λ w. h }

  pub Gives-run : (f : World → A × World) → ((w : World) → P (f w).0) → Gives P Q (run f)
  Gives-run f h = record { at = h }

  pub Gives-if :
      (b : Bool) (m n : Action A) → Gives P Q m → Gives P Q n → Gives P Q (if b then m else n)
  Gives-if true m n h k = h
  Gives-if false m n h k = k

module _ {A B : Type 0} {P : A → Type 0} {R : B → Type 0} {Q : Thrown → Type 0} where
  Gives-continue :
      (r : Result A) (f : A → Action B) (w : World)
      → Outcome P Q r
      → ((a : A) → P a → Gives R Q (f a))
      → Outcome R Q (continue r f w).0
  Gives-continue (ok a) f w h k = (k a h).at w
  Gives-continue (throw e) f w h k = h

  pub Gives-bind :
      (m : Action A) (f : A → Action B)
      → Gives P Q m
      → ((a : A) → P a → Gives R Q (f a))
      → Gives R Q (m >>= f)
  Gives-bind m f h k = record { at = λ w. Gives-continue (m w).0 f (m w).1 (h.at w) k }
