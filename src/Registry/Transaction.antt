-- ===== src/Registry/Transaction.antt =====
-- The invariant of the registry inside a transaction (`with self._connect() as conn` of
-- src/nightfall_photo_ingress/domain/registry.py), as rules for `search`.
use nightfall_photo_ingress.Base.Exec.{Result, ok, err, Exec}
use nightfall_photo_ingress.Base.Exec.Keeps.{Keeps, keeps_rules}
use nightfall_photo_ingress.Registry.Schema.{Db}
use nightfall_photo_ingress.Registry.Conn.{
  Conn, close_connection, with_connect, begin_immediate, commit, write, query,
}
use nightfall_photo_ingress.Registry.WellFormed.{IsWellFormed}

-- What is committed and what the transaction sees are both well-formed.
abbrev pub BothSound : Conn → Type 0
BothSound c = IsWellFormed c.disk × IsWellFormed c.work

closed-IsWellFormed :
    {A : Type 0} (r : Result A) (c : Conn) → BothSound c → IsWellFormed (close_connection (r, c)).1
closed-IsWellFormed (ok a) c h = h.1
closed-IsWellFormed (err e) c h = h.0

pub connect-IsWellFormed :
    {A : Type 0} (m : Exec Conn A)
    → Keeps BothSound m
    → (db : Db) → IsWellFormed db
    → IsWellFormed (with_connect m db).1
connect-IsWellFormed m k db h =
    closed-IsWellFormed (m (record { disk = db; work = db })).0
      (m (record { disk = db; work = db })).1 (k.at _ (h, h))

pub Keeps-query : {A : Type 0} (f : Db → A) → Keeps BothSound (query f)
Keeps-query f = record { at = λ c h. h }

pub Keeps-write :
    (f : Db → Db) → ((db : Db) → IsWellFormed db → IsWellFormed (f db)) → Keeps BothSound (write f)
Keeps-write f k = record { at = λ c h. (h.0, k c.work h.1) }

pub Keeps-begin : Keeps BothSound begin_immediate
Keeps-begin = record { at = λ c h. (h.0, h.0) }

pub Keeps-commit : Keeps BothSound commit
Keeps-commit = record { at = λ c h. (h.1, h.1) }

pub ruleset conn_rules = (keeps_rules, Keeps-query, Keeps-write, Keeps-begin, Keeps-commit)

pub Keeps-connect :
    {A : Type 0} (m : Exec Conn A) → Keeps BothSound m → Keeps IsWellFormed (with_connect m)
Keeps-connect m k = record { at = connect-IsWellFormed m k }
