-- ===== src/Api/Blocklist/Rules.antt =====
-- A block rule that is created, and the list of rules (src/api/services/blocklist_service.py).
use nightfall_photo_ingress.Base.{
  ℕ, ◌+◌, ◌≤◌, String, false, not, ◌||◌, ◌≡◌, refl, none, some, List, [], ◌∷◌, ◌++◌, arith, inl,
  inr, Bool-cases, All,
}
use nightfall_photo_ingress.Base.Exec.{ok, Result-split}
use nightfall_photo_ingress.Sql.{find_first, exists_where}
use nightfall_photo_ingress.Sql.Laws.{find_first-append}
use nightfall_photo_ingress.Registry.Schema.{Db, BlockedRow}
use nightfall_photo_ingress.World.{Os, World}
use nightfall_photo_ingress.Api.Keys.{Wire, replay_if_present, persist_idempotency}
use nightfall_photo_ingress.Api.Blocklist.{
  BlockRuleCreate, has_id, has_pattern, is_rule_type, get_blocklist, insert_rule, create_in,
  create_rule,
}

-- The id of a new rule is not in the table.
fresh_id :
    (n : ℕ) (rows : List BlockedRow)
    → All (λ r. r.id ≤ n) rows
    → exists_where (has_id (n + 1)) rows ≡ false
unfolding exists_where
fresh_id n [] h = refl
fresh_id n (r ∷ rows) h = let b = h.0 in ground (arith, fresh_id n rows h.1)

module _ (wire : Wire BlockedRow) (p : BlockRuleCreate) (key : String) where
  new_rule : Db → String → BlockedRow
  new_rule db now = record {
    id = db.blocked_seq + 1;
    pattern_text = p.pattern_text;
    rule_type = p.rule_type;
    reason = p.reason;
    enabled = p.enabled;
    created_at = now;
    updated_at = now;
  }

  create_in-listed :
      (now stamp : String) (db : Db) (r : BlockedRow)
      → All (λ r. r.id ≤ db.blocked_seq) db.blocked_rules
      → (create_in wire p key now stamp db).0 ≡ ok r
      → (exists_where (has_pattern p.pattern_text) db.blocked_rules ≡ false)
        × (r ≡ new_rule db now)
        × ((create_in wire p key now stamp db).1.blocked_rules ≡ db.blocked_rules ++ r ∷ [])
  unfolding create_in insert_rule persist_idempotency new_rule
  create_in-listed now stamp db r bound returned =
      let found : find_first (has_id (db.blocked_seq + 1))
            (db.blocked_rules ++ new_rule db now ∷ [])
          ≡ some (new_rule db now) =
        find_first-append (has_id (db.blocked_seq + 1)) db.blocked_rules (new_rule db now)
          (fresh_id db.blocked_seq db.blocked_rules bound) (ground arith) in
      elim (Bool-cases (
        exists_where (has_pattern p.pattern_text) db.blocked_rules
        || not (is_rule_type p.rule_type))) [
          | inl refused ↦ ground arith
          | inr fine ↦ ground (arith, found)
        ]

  -- A rule that is created, by a request that is no repetition, is the last one in the list of rules
  -- afterwards, behind those that were there; it has the pattern, the type, the reason and the state
  -- of the request, and no rule had its pattern before. The ids of the rules that were there are not
  -- above the counter of the table.
  pub create_rule-listed :
      (os : Os) (w : World) (status : ℕ) (r : BlockedRow)
      → All (λ r. r.id ≤ w.db.blocked_seq) w.db.blocked_rules
      → replay_if_present wire key "blocklist_create" p.pattern_text w.db ≡ ok none
      → (create_rule os wire p key w).0 ≡ ok (status, r)
      → (get_blocklist (create_rule os wire p key w).1.db ≡ get_blocklist w.db ++ r ∷ [])
        × (r.pattern_text ≡ p.pattern_text)
        × (r.rule_type ≡ p.rule_type)
        × (r.reason ≡ p.reason)
        × (r.enabled ≡ p.enabled)
        × (exists_where (has_pattern r.pattern_text) (get_blocklist w.db) ≡ false)
  unfolding create_rule get_blocklist new_rule
  create_rule-listed os w status r bound new returned =
      let now : String = os.clock w.reads in
      let stamp : String = os.clock (w.reads + 1) in
      elim (Result-split (create_in wire p key now stamp w.db).0) [
        | inr (e, raised) ↦ ground arith
        | inl (rule, good) ↦
            let (free, fields, grown) = create_in-listed now stamp w.db rule bound good in
            let same : rule ≡ r = ground arith in
            let (a, b, c, d) : (rule.pattern_text ≡ p.pattern_text)
                × (rule.rule_type ≡ p.rule_type)
                × (rule.reason ≡ p.reason)
                × (rule.enabled ≡ p.enabled) =
              rw fields (refl, refl, refl, refl) in
            ground (arith, free, grown, a, b, c, d, same)
      ]
