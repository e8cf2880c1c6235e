-- ===== src/Db/AuditLog.antt =====
-- packages/relay/src/db.ts: the insertion of an audit entry.
use remote_ttys.Base.{◌+◌, String, Option, [], ◌∷◌, ◌++◌}
use remote_ttys.Db.Rows.{Db}

unfoldable pub audit : String → String → Option String → Option String → Db → Db
audit datetime action user detail db = record db {
  audit_log =
      db.audit_log
      ++ record { id = db.next_audit; ts = datetime; action = action; user = user; detail = detail }
        ∷ [];
  next_audit = db.next_audit + 1;
}
