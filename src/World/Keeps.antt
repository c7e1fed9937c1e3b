-- ===== src/World/Keeps.antt =====
-- The invariant of the registry under the primitive actions on the world, as rules for `search`.
use nightfall_photo_ingress.Base.{ℕ, String, List, Option-cases, inl, inr, arith}
use nightfall_photo_ingress.Base.Exec.{Exec}
use nightfall_photo_ingress.Base.Exec.Keeps.{Keeps, keeps_rules}
use nightfall_photo_ingress.Registry.Schema.{Db}
use nightfall_photo_ingress.Registry.WellFormed.{IsWellFormed}
use nightfall_photo_ingress.World.{
  Os, World, content, on_db, utc_now, unlink, read_bytes, write_bytes, rename,
}

-- The registry of the world is well-formed.
abbrev pub IsSound : World → Type 0
IsSound w = IsWellFormed w.db

pub Keeps-on_db :
    {A : Type 0} (m : Exec Db A)
    → ((db : Db) → IsWellFormed db → IsWellFormed (m db).1)
    → Keeps IsSound (on_db m)
Keeps-on_db m k = record { at = λ w h. k w.db h }

pub Keeps-utc_now : (os : Os) → Keeps IsSound (utc_now os)
Keeps-utc_now os = record { at = λ w h. h }

pub Keeps-unlink : (p : String) → Keeps IsSound (unlink p)
Keeps-unlink p = record { at = λ w h. h }

pub Keeps-write_bytes : (p : String) (bytes : List ℕ) → Keeps IsSound (write_bytes p bytes)
Keeps-write_bytes p bytes = record { at = λ w h. h }

pub Keeps-read_bytes : (p : String) → Keeps IsSound (read_bytes p)
Keeps-read_bytes p = record {
  at = λ w h. elim (Option-cases (content p w.fs)) [
    | inl missing ↦ ground arith
    | inr (bytes, there) ↦ ground arith
  ];
}

pub Keeps-rename : (p q : String) → Keeps IsSound (rename p q)
Keeps-rename p q = record {
  at = λ w h. elim (Option-cases (content p w.fs)) [
    | inl missing ↦ ground arith
    | inr (bytes, there) ↦ ground arith
  ];
}

pub ruleset sound_rules = (
  keeps_rules, Keeps-on_db, Keeps-utc_now, Keeps-unlink, Keeps-write_bytes, Keeps-read_bytes,
  Keeps-rename,
)
