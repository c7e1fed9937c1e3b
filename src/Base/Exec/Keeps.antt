-- ===== src/Base/Exec/Keeps.antt =====
-- Properties of the state that an action keeps, whether it returns or raises: one rule for each way
-- to build an action.
use mathlib.Core.Bool.{Bool, true, false}
use mathlib.Core.Path.{◌≡◌, refl}
use mathlib.Core.Option.{Option, none, some}
use nightfall_photo_ingress.Base.Tests.{if◌then◌else◌}
use nightfall_photo_ingress.Base.Exec.{
  Error, Result, ok, err, Exec, pure, raise, lift, gets, raise_if, or_raise, continue, ◌>>=◌, ◌>>◌,
  wrap_flow,
}

-- `m` takes a state with `P` to one with `P`.
pub record Keeps {S A : Type 0} (P : S → Type 0) (m : Exec S A) : Type 0 where
  pub at : (s : S) → P s → P (m s).1

module _ {S A : Type 0} {P : S → Type 0} where
  pub Keeps-pure : (a : A) → Keeps P (pure a)
  Keeps-pure a = record { at = λ s h. h }

  pub Keeps-raise : (e : Error) → Keeps P (raise {A = A} e)
  Keeps-raise e = record { at = λ s h. h }

  pub Keeps-lift : (r : Result A) → Keeps P (lift r)
  Keeps-lift r = record { at = λ s h. h }

  pub Keeps-gets : (f : S → A) → Keeps P (gets f)
  Keeps-gets f = record { at = λ s h. h }

  pub Keeps-or_raise : (o : Option A) (e : Error) → Keeps P (or_raise o e)
  Keeps-or_raise none e = record { at = λ s h. h }
  Keeps-or_raise (some a) e = record { at = λ s h. h }

  pub Keeps-if : (b : Bool) (m n : Exec S A) → Keeps P m → Keeps P n → Keeps P (if b then m else n)
  Keeps-if true m n km kn = km
  Keeps-if false m n km kn = kn

  pub Keeps-wrap_flow : (m : Exec S A) → Keeps P m → Keeps P (wrap_flow m)
  Keeps-wrap_flow m k = record { at = k.at }

pub Keeps-raise_if :
    {S : Type 0} {P : S → Type 0} (b : Bool) (e : Error) → Keeps P (raise_if {S = S} b e)
Keeps-raise_if true e = record { at = λ s h. h }
Keeps-raise_if false e = record { at = λ s h. h }

module _ {S A B : Type 0} {P : S → Type 0} where
  Keeps-continue :
      (r : Result A) (f : A → Exec S B)
      → ((a : A) → Keeps P (f a))
      → (s : S) → P s
      → P (continue r f s).1
  Keeps-continue (ok a) f k s h = (k a).at s h
  Keeps-continue (err e) f k s h = h

  pub Keeps-bind :
      (m : Exec S A) (f : A → Exec S B) → Keeps P m → ((a : A) → Keeps P (f a)) → Keeps P (m >>= f)
  Keeps-bind m f km kf = record { at = λ s h. Keeps-continue (m s).0 f kf (m s).1 (km.at s h) }

  pub Keeps-then : (m : Exec S A) (n : Exec S B) → Keeps P m → Keeps P n → Keeps P (m >> n)
  Keeps-then m n km kn = Keeps-bind m (λ _. n) km (λ _. kn)

-- What follows the test of an option may use the value that was found.
pub Keeps-or_raise_bind :
    {S A B : Type 0} {P : S → Type 0} (o : Option A) (e : Error) (f : A → Exec S B)
    → ((a : A) → o ≡ some a → Keeps P (f a))
    → Keeps P (or_raise o e >>= f)
Keeps-or_raise_bind none e f k = record { at = λ s h. h }
Keeps-or_raise_bind (some a) e f k = record { at = (k a refl).at }

pub ruleset keeps_rules = (
  Keeps-pure, Keeps-raise, Keeps-lift, Keeps-gets, Keeps-or_raise, Keeps-if, Keeps-wrap_flow,
  Keeps-raise_if, Keeps-bind, Keeps-then,
)
