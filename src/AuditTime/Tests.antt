-- ===== src/AuditTime/Tests.antt =====
-- packages/web/src/lib/audit.ts: a time as the audit log gives it.
use remote_ttys.Base.{String, ◌≡◌, refl}
use remote_ttys.Base.Ints.{ℤ, pos}
use remote_ttys.Base.Texts.{codes}
use remote_ttys.AuditTime.{parse_server_date}
use remote_ttys.AuditTime.Zone.{parse_server_date_bare}

abbrev server_time : String
server_time = "2026-01-02 03:04:05"

abbrev parsed : String → ℤ
parsed _ = pos 7

parse_server_date_bare_example : parse_server_date parsed server_time ≡ parsed server_time
parse_server_date_bare_example =
    parse_server_date_bare 0x30 0x34 0x30 0x35 refl refl refl refl parsed server_time
      (codes "2026-01-02 03:") refl
