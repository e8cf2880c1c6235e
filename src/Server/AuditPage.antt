-- ===== src/Server/AuditPage.antt =====
-- packages/relay/src/index.ts: the route of the audit log.
use remote_ttys.Base.{
  ℕ, String, Bool, true, false, not, ◌&&◌, ◌||◌, Option, none, some, List, [], ◌∷◌, has, eqb, leb,
  ◌==◌, if◌then◌else◌,
}
use remote_ttys.Base.Ints.{ℤ, pos, negsuc}
use remote_ttys.Base.Texts.{truthy, or_default, codes, slice}
use remote_ttys.Db.AuditQuery.{RowId, row_number, nan, AuditQuery, query_audit_logs}
use remote_ttys.Auth.{VerifiedUser}
use remote_ttys.Server.Requests.{Services, AuditParams, Response}
use remote_ttys.Server.Guards.{Handler, refuse}

abbrev pub audit_actions : List String
audit_actions =
    "login" ∷ "login_fail" ∷ "login_rate_limited" ∷ "password_change" ∷ "setup" ∷ "user_create"
    ∷ "user_delete" ∷ "agent_connect" ∷ "agent_disconnect" ∷ "agent_reject" ∷ "agent_delete"
    ∷ "agent_fingerprint_reset" ∷ "token_create" ∷ "token_delete" ∷ "token_toggle"
    ∷ "session_create" ∷ "session_close" ∷ "server_key_reset" ∷ []

abbrev is_digit : ℕ → Bool
is_digit c = leb 0x30 c && leb c 0x39

-- A pattern in which the letter d stands for a digit and any other character for itself.
unfoldable pub fits_pattern : List ℕ → List ℕ → Bool
fits_pattern [] [] = true
fits_pattern [] (c ∷ cs) = false
fits_pattern (p ∷ ps) [] = false
fits_pattern (p ∷ ps) (c ∷ cs) = (if eqb p 0x64 then is_digit c else eqb c p) && fits_pattern ps cs

-- `datePattern.test(date)`
unfoldable pub is_date : String → Bool
is_date date =
    fits_pattern (codes "dddd-dd-dd") (codes date)
    || fits_pattern (codes "dddd-dd-dd dd:dd:dd") (codes date)

abbrev pub is_bad_date : Option String → Bool
is_bad_date date = elim (truthy date) [ none ↦ false | some d ↦ not (is_date d) ]

abbrev pub is_bad_action : Option String → Bool
is_bad_action action = elim (truthy action) [ none ↦ false | some a ↦ not (has a audit_actions) ]

-- `parseInt(…) || 50`
unfoldable pub page_limit : Option ℤ → ℤ
page_limit none = pos 50
page_limit (some (negsuc n)) = negsuc n
page_limit (some (pos n)) = if eqb n 0 then pos 50 else pos n

abbrev row_id : Option ℤ → RowId
row_id none = nan
row_id (some n) = row_number n

abbrev pub search_text : Option String → Option String
search_text none = none
search_text (some text) = some (slice 100 text)

module _ (v : Services) where
  open v use {like, parse_number}

  unfoldable pub cursor : Option String → Option RowId
  cursor param = elim (truthy param) [ none ↦ none | some text ↦ some (row_id (parse_number text)) ]

  -- Who is not an admin reads his own entries.
  unfoldable pub user_filter : AuditParams → VerifiedUser → Option String
  user_filter params user = if user.role == "admin" then params.user else some user.username

  unfoldable pub audit_query : AuditParams → VerifiedUser → AuditQuery
  audit_query params user = record {
    limit = some (page_limit (parse_number (or_default params.limit "")));
    before = cursor params.before;
    after = cursor params.after;
    action = params.action;
    user = user_filter params user;
    start_date = params.start_date;
    end_date = params.end_date;
    search = search_text params.search;
  }

  unfoldable pub on_get_audit : AuditParams → VerifiedUser → Handler v
  on_get_audit params user s =
      if is_bad_action params.action
      then refuse v 400 "Invalid action type" s
      else if is_bad_date params.start_date
      then refuse v 400 "Invalid startDate format" s
      else if is_bad_date params.end_date
      then refuse v 400 "Invalid endDate format" s
      else (Response.audit_page (query_audit_logs like (audit_query params user) s.relay.db), s)
