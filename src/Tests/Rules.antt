-- ===== src/Tests/Rules.antt =====
-- The theorem on block rules at a concrete world.
use nightfall_photo_ingress.Base.{true, false, some, [], ◌∷◌, ◌++◌, ◌≡◌, refl}
use nightfall_photo_ingress.Base.Exec.{err, assertion}
use nightfall_photo_ingress.Sql.{exists_where, find_first}
use nightfall_photo_ingress.Registry.Schema.{BlockedRow}
use nightfall_photo_ingress.World.{World}
use nightfall_photo_ingress.Api.Keys.{Wire, persist_idempotency, replay_if_present}
use nightfall_photo_ingress.Api.Blocklist.{BlockRuleCreate, has_pattern, get_blocklist, create_rule}
use nightfall_photo_ingress.Api.Blocklist.Rules.{create_rule-listed}
use nightfall_photo_ingress.Tests.Data.{os, w}

abbrev wire : Wire BlockedRow
wire = record { dumps = λ r. r.pattern_text; loads = λ s. err assertion; expires = λ now. now }

abbrev payload : BlockRuleCreate
payload = record {
  pattern_text = "*.tmp";
  rule_type = "filename";
  reason = some "scratch";
  enabled = true;
}

abbrev created : BlockedRow
created = record {
  id = 1;
  pattern_text = "*.tmp";
  rule_type = "filename";
  reason = some "scratch";
  enabled = true;
  created_at = "2026-03-01T10:00:00+00:00";
  updated_at = "2026-03-01T10:00:00+00:00";
}

abbrev after : World
after = (create_rule os wire payload "key" w).1

create_rule-listed_example :
    (get_blocklist after.db ≡ get_blocklist w.db ++ created ∷ [])
    × (created.pattern_text ≡ "*.tmp")
    × (created.rule_type ≡ "filename")
    × (created.reason ≡ some "scratch")
    × (created.enabled ≡ true)
    × (exists_where (has_pattern created.pattern_text) (get_blocklist w.db) ≡ false)
unfolding create_rule exists_where persist_idempotency replay_if_present find_first
create_rule-listed_example = create_rule-listed wire payload "key" os w 201 created tt refl refl
