-- ===== src/Base/Exec/Triples.antt =====
-- What an action makes of a state, with one condition for the states in which it returns and one for
-- those in which it raises.
use mathlib.Core.Path.{◌≡◌, refl}
use mathlib.Core.Bool.{Bool, true, false}
use nightfall_photo_ingress.Base.Tests.{if◌then◌else◌}
use nightfall_photo_ingress.Base.Exec.{
  Error, Result, ok, err, Exec, pure, raise, continue, ◌>>=◌, ◌>>◌,
}
use nightfall_photo_ingress.Base.Exec.Keeps.{Keeps}

abbrev pub Ends : {S A : Type 0} → (A → S → Type 0) → (S → Type 0) → Result A → S → Type 0
Ends Q E (ok a) s = Q a s
Ends Q E (err e) s = E s

-- From a state with P, the action returns with Q or raises with E.
pub record Triple {S A : Type 0} (P : S → Type 0) (Q : A → S → Type 0) (E : S → Type 0)
    (m : Exec S A) : Type 0 where
  pub at : (s : S) → P s → Ends Q E (m s).0 (m s).1

module _ {S A : Type 0} {P E : S → Type 0} where
  pub Triple-pure : {Q : A → S → Type 0} (a : A) → ((s : S) → P s → Q a s) → Triple P Q E (pure a)
  Triple-pure a h = record { at = h }

  pub Triple-raise :
      {Q : A → S → Type 0} (e : Error) → ((s : S) → P s → E s) → Triple P Q E (raise e)
  Triple-raise e h = record { at = h }

  pub Triple-if :
      {Q : A → S → Type 0} (b : Bool) (m n : Exec S A)
      → Triple P Q E m
      → Triple P Q E n
      → Triple P Q E (if b then m else n)
  Triple-if true m n hm hn = hm
  Triple-if false m n hm hn = hn

  -- Each branch may use the outcome of the test.
  pub Triple-test :
      {Q : A → S → Type 0} (b : Bool) (m n : Exec S A)
      → (b ≡ true → Triple P Q E m)
      → (b ≡ false → Triple P Q E n)
      → Triple P Q E (if b then m else n)
  Triple-test true m n hm hn = hm refl
  Triple-test false m n hm hn = hn refl

kept-Ends : {S A : Type 0} (P : S → Type 0) (r : Result A) (s : S) → P s → Ends (λ a. P) P r s
kept-Ends P (ok a) s h = h
kept-Ends P (err e) s h = h

pub Triple-Keeps :
    {S A : Type 0} {P : S → Type 0} (m : Exec S A) → Keeps P m → Triple P (λ a. P) P m
Triple-Keeps {P = P} m k = record { at = λ s h. kept-Ends P (m s).0 (m s).1 (k.at s h) }

continue-Ends :
    {S A B : Type 0} (Q : A → S → Type 0) (E : S → Type 0) (R : B → S → Type 0) (r : Result A)
    (f : A → Exec S B) (s : S)
    → Ends Q E r s
    → ((a : A) → Triple (Q a) R E (f a))
    → Ends R E (continue r f s).0 (continue r f s).1
continue-Ends Q E R (ok a) f s h k = (k a).at s h
continue-Ends Q E R (err e) f s h k = h

module _ {S A B : Type 0} {P E : S → Type 0} {Q : A → S → Type 0} {R : B → S → Type 0} where
  pub Triple-bind :
      (m : Exec S A) (f : A → Exec S B)
      → Triple P Q E m
      → ((a : A) → Triple (Q a) R E (f a))
      → Triple P R E (m >>= f)
  Triple-bind m f hm hf = record {
    at = λ s p. continue-Ends Q E R (m s).0 f (m s).1 (hm.at s p) hf;
  }

module _ {S A B : Type 0} {P M E : S → Type 0} {R : B → S → Type 0} where
  pub Triple-then :
      (m : Exec S A) (n : Exec S B) → Triple P (λ a. M) E m → Triple M R E n → Triple P R E (m >> n)
  Triple-then m n hm hn = Triple-bind {Q = λ a. M} m (λ _. n) hm (λ a. hn)

-- A weaker condition at the start.
pub Triple-from :
    {S A : Type 0} {P P' E : S → Type 0} {Q : A → S → Type 0} (m : Exec S A)
    → ((s : S) → P' s → P s)
    → Triple P Q E m
    → Triple P' Q E m
Triple-from m f h = record { at = λ s p. h.at s (f s p) }
