-- ===== src/Db/Tests.antt =====
-- packages/relay/src/db.ts, `queryAuditLogs`: a page of a short log.
use remote_ttys.Base.{String, Bool, none, some, [], ◌∷◌, reverse, ◌&&◌, ◌==◌, ◌≡◌, refl}
use remote_ttys.Db.{Db, select_all}
use remote_ttys.Base.Ints.{pos}
use remote_ttys.Db.AuditQuery.{
  row_number, AuditQuery, page_size, matches, in_page, ordered, query_audit_logs,
  query_audit_logs_complete,
}

abbrev log : Db
log = record {
  users = [];
  agent_tokens = [];
  agents = [];
  audit_log =
      record { id = 1; ts = "t1"; action = "login"; user = some "ann"; detail = none }
      ∷ record { id = 2; ts = "t2"; action = "setup"; user = some "bob"; detail = none }
      ∷ record { id = 3; ts = "t3"; action = "login"; user = none; detail = none }
      ∷ [];
  next_user = 1;
  next_token = 1;
  next_audit = 4;
}

abbrev logins : AuditQuery
logins = record {
  limit = none;
  before = some (row_number (pos 3));
  after = none;
  action = some "login";
  user = none;
  start_date = none;
  end_date = none;
  search = none;
}

abbrev same_text : String → String → Bool
same_text pattern text = pattern == text

query_audit_logs_complete_example :
    (query_audit_logs same_text logins log).logs
    ≡ reverse (
        select_all
          (λ row. matches same_text logins row && in_page (some (row_number (pos 3))) none row)
          log.audit_log)
unfolding query_audit_logs page_size matches in_page ordered select_all
query_audit_logs_complete_example = query_audit_logs_complete same_text logins log refl
