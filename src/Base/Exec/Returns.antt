-- ===== src/Base/Exec/Returns.antt =====
-- What holds of every result that an action returns: one rule for each way to build an action, as
-- only its last step matters.
use mathlib.Core.Path.{◌≡◌, refl, subst}
use mathlib.Core.Bool.{Bool, true, false}
use nightfall_photo_ingress.Base.Tests.{if◌then◌else◌}
use nightfall_photo_ingress.Base.Exec.{Result, ok, err, Exec, pure, continue, ◌>>=◌, ◌>>◌}

pub record Returns {S A : Type 0} (Q : A → Type 0) (m : Exec S A) : Type 0 where
  pub at : (s : S) (a : A) → (m s).0 ≡ ok a → Q a

ok-inj : {S A : Type 0} (a b : A) (s : S) → (pure a s).0 ≡ ok b → a ≡ b
ok-inj a b s e = cc

module _ {S A : Type 0} {Q : A → Type 0} where
  pub Returns-pure : (a : A) → Q a → Returns {S = S} Q (pure a)
  Returns-pure a q = record { at = λ s b e. subst Q (ok-inj a b s e) q }

  pub Returns-if :
      (b : Bool) (m n : Exec S A) → Returns Q m → Returns Q n → Returns Q (if b then m else n)
  Returns-if true m n hm hn = hm
  Returns-if false m n hm hn = hn

module _ {S A B : Type 0} {Q : B → Type 0} where
  continue-Returns :
      (r : Result A) (f : A → Exec S B) (s : S)
      → ((a : A) → Returns Q (f a))
      → (b : B) → (continue r f s).0 ≡ ok b
      → Q b
  continue-Returns (ok a) f s k b h = (k a).at s b h
  continue-Returns (err e) f s k b h = cc

  pub Returns-last :
      (m : Exec S A) (f : A → Exec S B) → ((a : A) → Returns Q (f a)) → Returns Q (m >>= f)
  Returns-last m f k = record { at = λ s. continue-Returns (m s).0 f (m s).1 k }

  -- The last step may use what the first one returns.
  pub Returns-step :
      (R : A → Type 0) (m : Exec S A) (f : A → Exec S B)
      → Returns R m
      → ((a : A) → R a → Returns Q (f a))
      → Returns Q (m >>= f)
  Returns-step R m f first next = record {
    at = λ s. step (m s).0 (m s).1 (λ a e. next a (first.at s a e));
  }
    where
      step :
          (r : Result A) (s : S)
          → ((a : A) → r ≡ ok a → Returns Q (f a))
          → (b : B) → (continue r f s).0 ≡ ok b
          → Q b
      step (ok a) s k b h = (k a refl).at s b h
      step (err e) s k b h = cc

  pub Returns-then : (m : Exec S A) (n : Exec S B) → Returns Q n → Returns Q (m >> n)
  Returns-then m n k = Returns-last m (λ _. n) (λ _. k)

pub ruleset returns_rules = (Returns-pure, Returns-if, Returns-last, Returns-then)
