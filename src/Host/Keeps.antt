-- ===== src/Host/Keeps.antt =====
-- Invariants of the state under actions, with a rule for each way to build an action. An action may
-- throw: the invariant holds then too.
use cvranking.Prelude.{ℕ, Bool, true, false, if◌then◌else◌}
use cvranking.Host.{World, tick}
use cvranking.Host.Action.{
  Thrown, Result, ok, throw, Action, pure, raise, lift, run, call, continue, ◌>>=◌,
}

pub record Keeps {A : Type 0} (P : World → Type 0) (m : Action A) : Type 0 where
  pub at : (w : World) → P w → P (m w).1

module _ {A : Type 0} {P : World → Type 0} where
  pub Keeps-pure : (a : A) → Keeps P (pure a)
  Keeps-pure a = record { at = λ w h. h }

  pub Keeps-raise : (e : Thrown) → Keeps P (raise {A = A} e)
  Keeps-raise e = record { at = λ w h. h }

  pub Keeps-lift : (r : Result A) → Keeps P (lift r)
  Keeps-lift r = record { at = λ w h. h }

  pub Keeps-run : (f : World → A × World) → ((w : World) → P w → P (f w).1) → Keeps P (run f)
  Keeps-run f h = record { at = h }

  pub Keeps-call : (f : ℕ → A) → ((w : World) → P w → P (tick w)) → Keeps P (call f)
  Keeps-call f h = record { at = h }

  pub Keeps-if : (b : Bool) (m n : Action A) → Keeps P m → Keeps P n → Keeps P (if b then m else n)
  Keeps-if true m n h k = h
  Keeps-if false m n h k = k

module _ {A B : Type 0} {P : World → Type 0} where
  Keeps-continue :
      (r : Result A) (f : A → Action B) (w : World)
      → ((a : A) → Keeps P (f a))
      → P w
      → P (continue r f w).1
  Keeps-continue (ok a) f w k h = (k a).at w h
  Keeps-continue (throw e) f w k h = h

  pub Keeps-bind :
      (m : Action A) (f : A → Action B) → Keeps P m → ((a : A) → Keeps P (f a)) → Keeps P (m >>= f)
  Keeps-bind m f h k = record { at = λ w p. Keeps-continue (m w).0 f (m w).1 k (h.at w p) }
