-- ===== src/Host/Action.antt =====
-- Server code that changes the state and may throw. What was written before a throw stays.
use cvranking.Prelude.{ℕ, ◌≡◌, refl}
use cvranking.Js.Text.{Text}
use cvranking.Host.{World, tick}

-- The values that the source throws and tells apart: its `DemoProblem`, another `Error`, and what
-- is no `Error`.
pub data Thrown : Type 0 where
  demo_problem : (status : ℕ) (message : Text) → Thrown
  error : (message : Text) → Thrown
  other : Thrown

pub data Result {ℓ} (A : Type ℓ) : Type ℓ where
  ok : A → Result A
  throw : Thrown → Result A

abbrev pub Action : Type 0 → Type 0
Action A = World → Result A × World

module _ {A : Type 0} where
  abbrev pub pure : A → Action A
  pure a w = (ok a, w)

  abbrev pub raise : Thrown → Action A
  raise e w = (throw e, w)

  abbrev pub lift : Result A → Action A
  lift r w = (r, w)

  -- A function of the state that does not throw.
  abbrev pub run : (World → A × World) → Action A
  run f w = let (a, w') = f w in (ok a, w')

  -- A call of the host, answered by its number.
  abbrev pub call : (ℕ → A) → Action A
  call f w = (ok (f w.calls), tick w)

module _ {A B : Type 0} where
  abbrev pub continue : Result A → (A → Action B) → Action B
  continue (ok a) f w = f a w
  continue (throw e) f w = (throw e, w)

  infixl 5 ◌>>=◌ ◌>>◌
  abbrev pub ◌>>=◌ : Action A → (A → Action B) → Action B
  ◌>>=◌ m f w = let (r, w') = m w in continue r f w'

  abbrev pub ◌>>◌ : Action A → Action B → Action B
  m >> n = m >>= λ _. n

module _ {A : Type 0} where
  abbrev recover : Result A → (Thrown → Action A) → Action A
  recover (ok a) handler w = (ok a, w)
  recover (throw e) handler w = handler e w

  -- `try { … } catch (e) { … }`.
  abbrev pub catch : Action A → (Thrown → Action A) → Action A
  catch m handler w = let (r, w') = m w in recover r handler w'

-- What holds when an action has returned, and when it has thrown.
abbrev pub Leaves :
    {A : Type 0} → (A → World → Type 0) → (Thrown → World → Type 0) → Result A × World → Type 0
Leaves P Q (ok a, w) = P a w
Leaves P Q (throw e, w) = Q e w

module _ {A B : Type 0} (P : B → World → Type 0) (Q : Thrown → World → Type 0) where
  pub Leaves-continue :
      (r : Result A) (f : A → Action B) (w : World)
      → ((a : A) → r ≡ ok a → Leaves P Q (f a w))
      → ((e : Thrown) → r ≡ throw e → Q e w)
      → Leaves P Q (continue r f w)
  Leaves-continue (ok a) f w h k = h a refl
  Leaves-continue (throw e) f w h k = k e refl
