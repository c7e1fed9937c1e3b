-- ===== src/World/Laws.antt =====
-- What a file holds after a removal and after a write.
use nightfall_photo_ingress.Base.{
  ℕ, String, none, some, List, [], ◌∷◌, ◌==◌, ◌≡◌, arith, eq_iff, if◌then◌else◌,
}
use nightfall_photo_ingress.World.{Fs, content, remove, put}

pub content-remove :
    (x p : String) (fs : Fs) → content x (remove p fs) ≡ (if p == x then none else content x fs)
unfolding content remove
content-remove x p [] = ground arith
content-remove x p ((q, bytes) ∷ fs) =
    ground (arith, content-remove x p fs, eq_iff q p, eq_iff q x, eq_iff p x)

pub content-put :
    (x p : String) (bytes : List ℕ) (fs : Fs)
    → content x (put p bytes fs) ≡ (if p == x then some bytes else content x fs)
unfolding put content
content-put x p bytes fs = ground (arith, content-remove x p fs)
