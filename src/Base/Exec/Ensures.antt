-- ===== src/Base/Exec/Ensures.antt =====
-- What holds of the result and the state where an action returns.
use mathlib.Core.Path.{◌≡◌, refl, subst}
use native.Mathlib.Omega.{arith}
use nightfall_photo_ingress.Base.Exec.{Result, ok, err, Exec, continue, ◌>>=◌, pure, wrap_flow}

pub record Ensures {S A : Type 0} (Q : A → S → Type 0) (m : Exec S A) : Type 0 where
  pub at : (s : S) (a : A) → (m s).0 ≡ ok a → Q a (m s).1

module _ {S A B : Type 0} where
  continue-Ensures :
      (Q : B → S → Type 0) (r : Result A) (f : A → Exec S B) (s : S)
      → ((a : A) → r ≡ ok a → (b : B) → (f a s).0 ≡ ok b → Q b (f a s).1)
      → (b : B) → (continue r f s).0 ≡ ok b
      → Q b (continue r f s).1
  continue-Ensures Q (ok a) f s k b h = k a refl b h
  continue-Ensures Q (err e) f s k b h = cc

  -- Only the last action matters.
  pub Ensures-last :
      (Q : B → S → Type 0) (m : Exec S A) (f : A → Exec S B)
      → ((a : A) → Ensures Q (f a))
      → Ensures Q (m >>= f)
  Ensures-last Q m f k = record {
    at = λ s. continue-Ensures Q (m s).0 f (m s).1 (λ a _. (k a).at (m s).1);
  }

  -- What the first action ensures is carried on by the second.
  pub Ensures-step :
      (R : A → S → Type 0) (Q : B → S → Type 0) (m : Exec S A) (f : A → Exec S B)
      → Ensures R m
      → ((a : A) (s : S) → R a s → (b : B) → (f a s).0 ≡ ok b → Q b (f a s).1)
      → Ensures Q (m >>= f)
  Ensures-step R Q m f first next = record {
    at = λ s. continue-Ensures Q (m s).0 f (m s).1 (λ a e. next a (m s).1 (first.at s a e));
  }

pure-lem : {S B : Type 0} (b b' : B) (s : S) → (pure b s).0 ≡ ok b' → b ≡ b'
pure-lem b b' s e = cc

module _ {S A : Type 0} where
  pub Ensures-wrap_flow :
      (Q : A → S → Type 0) (m : Exec S A) → Ensures Q m → Ensures Q (wrap_flow m)
  Ensures-wrap_flow Q m h = record { at = λ s a e. h.at s a (ground arith) }

module _ {S : Type 0} {A B : Type 0} where
  -- The last action, before a result is returned.
  pub Ensures-return :
      (Q : B → S → Type 0) (m : Exec S A) (b : B)
      → Ensures (λ _ s. Q b s) m
      → Ensures Q (m >>= λ _. pure b)
  Ensures-return Q m b first =
      Ensures-step (λ _ s. Q b s) Q m (λ _. pure b) first
        (λ a s q b' e. subst (λ x. Q x s) (pure-lem b b' s e) q)
