-- ===== src/Db/AuditQuery.antt =====
-- packages/relay/src/db.ts, `queryAuditLogs`: the pages of the audit log. SQLite's LIKE with the
-- escape character \ is a parameter: the pattern, then the text.
use Prim.Native.Char.{code}
use Prim.Native.Nat.{Ordering}
use Prim.Native.String.{compare}
use remote_ttys.Base.{
  ℕ, zero, suc, ◌≤◌, min, max, String, Bool, true, false, ◌&&◌, ◌||◌, Option, none, some, List, [],
  ◌∷◌, length, take, reverse, eqb, ltb, ◌==◌, ◌≡◌, refl, ap, arith, if◌then◌else◌, inl, inr,
  Bool-cases,
}
use remote_ttys.Base.Ints.{ℤ, pos, negsuc}
use remote_ttys.Base.Texts.{truthy, codes, ◌<>◌}
use remote_ttys.Db.{AuditRow, Db, select_all}

-- A number to compare row ids with. NaN is bound as NULL, so a comparison with it is not true.
pub data RowId : Type 0 where
  row_number : ℤ → RowId
  nan : RowId

pub record AuditQuery : Type 0 where
  pub limit : Option ℤ
  pub before : Option RowId
  pub after : Option RowId
  pub action : Option String
  pub user : Option String
  pub start_date : Option String
  pub end_date : Option String
  pub search : Option String

pub record AuditResult : Type 0 where
  pub logs : List AuditRow
  pub has_more : Bool
  pub total : ℕ

-- `Math.min(Math.max(query.limit ?? 50, 1), 200)`.
unfoldable pub page_size : Option ℤ → ℕ
page_size none = 50
page_size (some (pos n)) = min (max n 1) 200
page_size (some (negsuc n)) = 1

-- A text comparison of SQLite, by code points; `is_at_most s t` is s <= t.
abbrev pub is_at_most : String → String → Bool
is_at_most s t = elim (compare s t) [
  | Ordering.lt ↦ true
  | Ordering.eq ↦ true
  | Ordering.gt ↦ false
]

-- A date without a time gets one.
unfoldable pub with_time : String → String → String
with_time date time = if eqb (length (codes date)) 10 then date <> time else date

-- `replace(/[%_]/g, c => '\\' + c)`.
unfoldable pub escape_like : String → String
escape_like String.[] = ""
escape_like (String.◌∷◌ c s) =
    let rest = String.◌∷◌ c (escape_like s) in
    if eqb (code c) 0x25 || eqb (code c) 0x5f then "\\" <> rest else rest

-- A comparison with NULL is not true.
abbrev pub holds : (String → Bool) → Option String → Bool
holds p none = false
holds p (some text) = p text

abbrev pub unless_absent : Option String → (String → Bool) → Bool
unless_absent filter p = elim (truthy filter) [ none ↦ true | some value ↦ p value ]

abbrev pub is_below : ℕ → RowId → Bool
is_below id (row_number (pos n)) = ltb id n
is_below id (row_number (negsuc n)) = false
is_below id nan = false

abbrev pub is_above : ℕ → RowId → Bool
is_above id (row_number (pos n)) = ltb n id
is_above id (row_number (negsuc n)) = true
is_above id nan = false

unfoldable pub in_page : Option RowId → Option RowId → AuditRow → Bool
in_page (some b) after row = is_below row.id b
in_page none (some a) row = is_above row.id a
in_page none none row = true

-- Backward is towards newer entries, oldest first.
abbrev pub is_backward : AuditQuery → Bool
is_backward q = elim q.after [ none ↦ false | some a ↦ true ]

unfoldable pub ordered : AuditQuery → List AuditRow → List AuditRow
ordered q rows = if is_backward q then rows else reverse rows

-- What is cut to one more than fits, and fits, was not cut.
take_all :
    {A : Type 0} (n : ℕ) (xs : List A)
    → length (take (suc n) xs) ≤ n
    → take n (take (suc n) xs) ≡ xs
take_all zero [] fits = refl
take_all (suc n) [] fits = refl
take_all zero (x ∷ xs) fits = absurd (omega arith)
take_all (suc n) (x ∷ xs) fits = ap (λ ys. x ∷ ys) (take_all n xs (omega arith))

module _ (like : String → String → Bool) where
  unfoldable pub matches : AuditQuery → AuditRow → Bool
  matches q row =
      unless_absent q.action (λ action. row.action == action)
      && unless_absent q.user (λ user. holds (λ u. u == user) row.user)
      && unless_absent q.start_date (λ date. is_at_most (with_time date " 00:00:00") row.ts)
      && unless_absent q.end_date (λ date. is_at_most row.ts (with_time date " 23:59:59"))
      && unless_absent q.search (λ text. holds (like ("%" <> escape_like text <> "%")) row.detail)

  unfoldable pub total_of : AuditQuery → Db → ℕ
  total_of q db = elim q.before [
    | some b ↦ 0
    | none ↦ elim q.after [ some a ↦ 0 | none ↦ length (select_all (matches q) db.audit_log) ]
  ]

  unfoldable pub query_audit_logs : AuditQuery → Db → AuditResult
  query_audit_logs q db =
      let limit = page_size q.limit in
      let found = select_all (λ row. matches q row && in_page q.before q.after row) db.audit_log in
      let rows = take (suc limit) (ordered q found) in
      let logs = take limit rows in
      record {
        logs = if is_backward q then reverse logs else logs;
        has_more = ltb limit (length rows);
        total = total_of q db;
      }

  -- A page that says there is no more holds every entry that matches the filters and the cursor,
  -- newest first, whichever way the cursor goes.
  pub query_audit_logs_complete :
      (q : AuditQuery) (db : Db)
      → (query_audit_logs q db).has_more ≡ false
      → (query_audit_logs q db).logs
        ≡ reverse (select_all (λ row. matches q row && in_page q.before q.after row) db.audit_log)
  unfolding query_audit_logs ordered
  query_audit_logs_complete q db last =
      let found = select_all (λ row. matches q row && in_page q.before q.after row) db.audit_log in
      let fits : length (take (suc (page_size q.limit)) (ordered q found)) ≤ page_size q.limit =
        ground arith in
      rw (take_all (page_size q.limit) (ordered q found) fits) (elim (Bool-cases (is_backward q)) [
        | inl back ↦ rw (back, ordered) refl
        | inr forth ↦ rw (forth, ordered) refl
      ])

-- `getAuditLogs`: the newest entries.
unfoldable pub get_audit_logs : ℕ → Db → List AuditRow
get_audit_logs limit db = take limit (reverse db.audit_log)
