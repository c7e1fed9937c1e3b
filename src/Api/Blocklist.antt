-- ===== src/Api/Blocklist.antt =====
-- The block rules (`BlocklistService` of src/api/services/blocklist_service.py). A rule as the API
-- returns it has the columns of its row. The time of the row and the time of the key are both read
-- before the transaction.
pub mod Rules
use nightfall_photo_ingress.Base.{
  ℕ, ◌+◌, String, Bool, true, false, not, ◌&&◌, ◌||◌, Option, none, some, List, [], ◌∷◌, ◌++◌, ◌==◌,
  eqb, option_or, if◌then◌else◌,
}
use nightfall_photo_ingress.Base.Exec.{
  Error, integrity, rule_conflict, rule_not_found, assertion, Result, ok, err, Exec, pure, lift,
  gets, raise_if, or_raise, ◌>>=◌, ◌>>◌,
}
use nightfall_photo_ingress.Sql.{find_first, select_where, update_where, exists_where}
use nightfall_photo_ingress.Text.{decimal}
use nightfall_photo_ingress.Registry.Schema.{Db, BlockedRow}
use nightfall_photo_ingress.Registry.Conn.{Conn, with_connect, query, write, coalesce}
use nightfall_photo_ingress.World.{Os, World, on_db, utc_now}
use nightfall_photo_ingress.Api.Keys.{Wire, replay_if_present, persist_idempotency}

pub record BlockRuleCreate : Type 0 where
  pub pattern_text : String
  pub rule_type : String
  pub reason : Option String
  pub enabled : Bool

pub record BlockRuleUpdate : Type 0 where
  pub pattern_text : Option String
  pub rule_type : Option String
  pub reason : Option String
  pub enabled : Option Bool

pub record BlockRuleDeleteResponse : Type 0 where
  pub id : ℕ
  pub deleted : Bool

abbrev pub has_id : ℕ → BlockedRow → Bool
has_id id r = eqb r.id id

abbrev pub has_pattern : String → BlockedRow → Bool
has_pattern pattern r = r.pattern_text == pattern

-- CHECK (rule_type IN ('filename', 'regex'))
abbrev pub is_rule_type : String → Bool
is_rule_type t = (t == "filename") || (t == "regex")

-- ORDER BY id, which is the order of insertion
unfoldable pub get_blocklist : Db → List BlockedRow
get_blocklist db = db.blocked_rules

-- except sqlite3.IntegrityError as exc: raise ValueError
abbrev pub conflict_of : Error → Error
conflict_of integrity = rule_conflict
conflict_of e = e

abbrev pub as_conflict : {A : Type 0} → Exec Db A → Exec Db A
as_conflict m db = let (r, db') = m db in (renamed r, db')
  where
    renamed : {A : Type 0} → Result A → Result A
    renamed (ok a) = ok a
    renamed (err e) = err (conflict_of e)

unfoldable pub insert_rule : BlockRuleCreate → String → Exec Conn ℕ
insert_rule p now = do
  taken ← query (λ db. exists_where (has_pattern p.pattern_text) db.blocked_rules)
  raise_if (taken || not (is_rule_type p.rule_type)) integrity
  write (λ db. record db {
    blocked_seq = db.blocked_seq + 1;
    blocked_rules =
        db.blocked_rules
        ++ record {
          id = db.blocked_seq + 1;
          pattern_text = p.pattern_text;
          rule_type = p.rule_type;
          reason = p.reason;
          enabled = p.enabled;
          created_at = now;
          updated_at = now;
        }
          ∷ [];
  })
  query (λ db. db.blocked_seq)

unfoldable pub create_in :
    Wire BlockedRow → BlockRuleCreate → String → String → String → Exec Db BlockedRow
unfolding insert_rule
create_in wire p key now stamp = as_conflict (
    with_connect (do
      id ← insert_rule p now
      found ← query (λ db. find_first (has_id id) db.blocked_rules)
      rule ← or_raise found assertion
      persist_idempotency wire key "blocklist_create" p.pattern_text 201 rule stamp
      pure rule))

-- The rest of a request, unless an earlier response is there.
abbrev pub unless_replayed :
    {A : Type 0} → Result (Option (ℕ × A)) → Exec World (ℕ × A) → Exec World (ℕ × A)
unless_replayed (err e) m w = (err e, w)
unless_replayed (ok (some r)) m w = (ok r, w)
unless_replayed (ok none) m w = m w

unfoldable pub create_rule :
    Os → Wire BlockedRow → BlockRuleCreate → String → Exec World (ℕ × BlockedRow)
unfolding create_in
create_rule os wire p key w =
    unless_replayed (replay_if_present wire key "blocklist_create" p.pattern_text w.db)
      (do
        now ← utc_now os
        stamp ← utc_now os
        rule ← on_db (create_in wire p key now stamp)
        pure (201, rule))
      w

-- The row with the fields of the payload that are there.
abbrev pub updated : BlockRuleUpdate → String → BlockedRow → BlockedRow
updated p now r = record r {
  pattern_text = option_or p.pattern_text r.pattern_text;
  rule_type = option_or p.rule_type r.rule_type;
  reason = coalesce p.reason r.reason;
  enabled = option_or p.enabled r.enabled;
  updated_at = now;
}

-- UNIQUE, against the other rows
abbrev pub pattern_taken : ℕ → String → List BlockedRow → Bool
pattern_taken id pattern rows = exists_where (λ r. has_pattern pattern r && not (has_id id r)) rows

unfoldable pub write_update : ℕ → BlockedRow → Exec Conn Unit
write_update id next = do
  taken ← query (λ db. pattern_taken id next.pattern_text db.blocked_rules)
  raise_if (taken || not (is_rule_type next.rule_type)) integrity
  write (λ db. record db { blocked_rules = update_where (has_id id) (λ r. next) db.blocked_rules })

unfoldable pub update_in : Wire BlockedRow → ℕ → BlockedRow → String → String → Exec Db BlockedRow
unfolding write_update decimal
update_in wire id next key stamp = as_conflict (
    with_connect (do
      write_update id next
      found ← query (λ db. find_first (has_id id) db.blocked_rules)
      rule ← or_raise found assertion
      persist_idempotency wire key "blocklist_update" (decimal id) 200 rule stamp
      pure rule))

unfoldable pub update_rule :
    Os → Wire BlockedRow → ℕ → BlockRuleUpdate → String → Exec World (ℕ × BlockedRow)
unfolding update_in decimal
update_rule os wire id p key w =
    unless_replayed (replay_if_present wire key "blocklist_update" (decimal id) w.db)
      (do
        found ← gets (λ w. find_first (has_id id) w.db.blocked_rules)
        current ← or_raise found rule_not_found
        now ← utc_now os
        stamp ← utc_now os
        rule ← on_db (update_in wire id (updated p now current) key stamp)
        pure (200, rule))
      w

unfoldable pub delete_in :
    Wire BlockRuleDeleteResponse → ℕ → String → String → Exec Db BlockRuleDeleteResponse
unfolding decimal
delete_in wire id key stamp = with_connect (do
  write (λ db. record db { blocked_rules = select_where (λ r. not (has_id id r)) db.blocked_rules })
  let response : BlockRuleDeleteResponse = record { id = id; deleted = true }
  persist_idempotency wire key "blocklist_delete" (decimal id) 200 response stamp
  pure response)

unfoldable pub delete_rule :
    Os → Wire BlockRuleDeleteResponse → ℕ → String → Exec World (ℕ × BlockRuleDeleteResponse)
unfolding delete_in decimal
delete_rule os wire id key w =
    unless_replayed (replay_if_present wire key "blocklist_delete" (decimal id) w.db)
      (do
        found ← gets (λ w. find_first (has_id id) w.db.blocked_rules)
        row ← or_raise found rule_not_found
        stamp ← utc_now os
        response ← on_db (delete_in wire id key stamp)
        pure (200, response))
      w
