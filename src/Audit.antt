-- ===== src/Audit.antt =====
-- apps/audit/models.py: AuditLog.record
use mbarara_auction.Prelude.{ℕ, String, Option, List}
use mbarara_auction.Table.{create}
use mbarara_auction.Models.{Db}
use mbarara_auction.Models.Records.{Action, ObjectRef, Value, AuditLog}

abbrev pub entry : Option ℕ → Action → ObjectRef → String → List (String × Value) → ℕ → AuditLog
entry actor action object reason metadata now = record {
  actor = actor;
  action = action;
  object = object;
  reason = reason;
  metadata = metadata;
  created_at = now;
}

unfoldable pub audit : Option ℕ → Action → ObjectRef → String → List (String × Value) → Db → Db
audit actor action object reason metadata db = record db {
  audit_logs = create (entry actor action object reason metadata db.clock) db.audit_logs;
}
