-- ===== src/Server/Privacy.antt =====
-- packages/relay/src/index.ts: whose entries the audit page shows.
use remote_ttys.Base.{
  ℕ, suc, zero, String, Bool, true, false, ◌&&◌, some, List, [], ◌∷◌, All, take, reverse, ◌==◌, ◌≡◌,
  refl, ◌∙◌, ap, inl, inr, Bool-cases, Option-cases, arith, eq_iff,
}
use mathlib.Core.List.{reverse_aux}
use remote_ttys.Base.Texts.{truthy}
use remote_ttys.Db.{Db, AuditRow, select_all}
use remote_ttys.Db.AuditQuery.{
  AuditQuery, matches, in_page, page_size, ordered, is_backward, query_audit_logs,
}
use remote_ttys.Auth.{VerifiedUser}
use remote_ttys.Server.Requests.{Services, Server, AuditParams, Response, audit_page}
use remote_ttys.Server.AuditPage.{
  audit_query, user_filter, on_get_audit, is_bad_action, is_bad_date,
}

module _ {A : Type 0} (P : A → Type 0) where
  All-take : (n : ℕ) (xs : List A) → All P xs → All P (take n xs)
  All-take zero xs h = tt
  All-take (suc n) [] h = tt
  All-take (suc n) (x ∷ xs) h = (h.0, All-take n xs h.1)

  All-reverse_aux : (xs ys : List A) → All P xs → All P ys → All P (reverse_aux xs ys)
  All-reverse_aux [] ys h k = k
  All-reverse_aux (x ∷ xs) ys h k = All-reverse_aux xs (x ∷ ys) h.1 (h.0, k)

  All-reverse : (xs : List A) → All P xs → All P (reverse xs)
  All-reverse xs h = All-reverse_aux xs [] h tt

  All-select_all :
      (p : A → Bool) (xs : List A) → ((x : A) → p x ≡ true → P x) → All P (select_all p xs)
  unfolding select_all
  All-select_all p [] h = tt
  All-select_all p (x ∷ xs) h = elim (Bool-cases (p x)) [
    | inl good ↦ rw (good, select_all) (h x good, All-select_all p xs h)
    | inr bad ↦ rw (bad, select_all) (All-select_all p xs h)
  ]

-- The entry is of this user.
abbrev pub IsOf : String → AuditRow → Type 0
IsOf username row = row.user ≡ some username

matches-IsOf :
    (like : String → String → Bool) (q : AuditQuery) (username : String) (row : AuditRow)
    → truthy q.user ≡ some username
    → matches like q row ≡ true
    → IsOf username row
unfolding matches
matches-IsOf like q username row named good = elim (Option-cases row.user) [
  | inl absent_ ↦ absurd (ground arith)
  | inr (u, there) ↦
      let same : (u == username) ≡ true = ground arith in
      there ∙ ap (λ (t : String). some t) ((eq_iff u username).0 same)
]

query_audit_logs-IsOf :
    (like : String → String → Bool) (q : AuditQuery) (username : String) (d : Db)
    → truthy q.user ≡ some username
    → All (IsOf username) (query_audit_logs like q d).logs
unfolding query_audit_logs ordered
query_audit_logs-IsOf like q username d named =
    let found =
      All-select_all (IsOf username) (λ row. matches like q row && in_page q.before q.after row)
        d.audit_log (λ row good. matches-IsOf like q username row named (ground arith)) in
    elim (Bool-cases (is_backward q)) [
      | inl back ↦
          rw (back, ordered)
            (All-reverse (IsOf username) _ (
              All-take (IsOf username) (page_size q.limit) _
                (All-take (IsOf username) (suc (page_size q.limit)) _ found)))
      | inr forth ↦
          rw (forth, ordered)
            (All-take (IsOf username) (page_size q.limit) _ (
              All-take (IsOf username) (suc (page_size q.limit)) _
                (All-reverse (IsOf username) _ found)))
    ]

-- Of a page, every entry; of another answer, nothing.
abbrev pub ShowsOnly : {T : Type 0} → String → Response T → Type 0
ShowsOnly username (audit_page page) = All (IsOf username) page.logs
ShowsOnly username _ = Unit

module _ (v : Services) where
  audit_query-user :
      (params : AuditParams) (user : VerifiedUser)
      → (user.role == "admin") ≡ false
      → (user.username == "") ≡ false
      → truthy (audit_query v params user).user ≡ some user.username
  unfolding audit_query user_filter
  audit_query-user params user other named = rw (other, user_filter) (rw named refl)

  -- Whatever is asked for, a page that is shown to a user with a name who is not an admin holds his own
  -- entries only.
  pub on_get_audit-ShowsOnly :
      (params : AuditParams) (user : VerifiedUser) (s : Server)
      → (user.role == "admin") ≡ false
      → (user.username == "") ≡ false
      → ShowsOnly user.username (on_get_audit v params user s).0
  unfolding on_get_audit
  on_get_audit-ShowsOnly params user s other named =
      elim (Bool-cases (is_bad_action params.action)) [
        | inl bad ↦ rw (bad, on_get_audit) tt
        | inr good ↦ elim (Bool-cases (is_bad_date params.start_date)) [
          | inl bad ↦ rw (good, on_get_audit) (rw (bad, on_get_audit) tt)
          | inr start ↦ elim (Bool-cases (is_bad_date params.end_date)) [
            | inl bad ↦
                rw (good, on_get_audit) (rw (start, on_get_audit) (rw (bad, on_get_audit) tt))
            | inr end ↦
                rw (good, on_get_audit)
                  (rw (start, on_get_audit)
                    (rw (end, on_get_audit)
                      (query_audit_logs-IsOf v.like (audit_query v params user) user.username
                        s.relay.db (audit_query-user params user other named))))
          ]
        ]
      ]
