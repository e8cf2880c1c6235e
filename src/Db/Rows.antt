-- ===== src/Db/Rows.antt =====
-- packages/relay/src/db.ts: the rows of the tables, and the statements that read and change them.
use remote_ttys.Base.{ℕ, String, Bool, false, Option, none, some, List, [], ◌∷◌, eqb, if◌then◌else◌}
use remote_ttys.Base.Ints.{ℤ}

-- What the page keeps of a user's choices; the column holds it as JSON.
pub record Preferences : Type 0 where
  pub ui_theme : Option String
  pub terminal_theme : Option String
  pub font_size : Option ℤ
  pub font_family : Option String

abbrev pub no_preferences : Preferences
no_preferences = record {
  ui_theme = none;
  terminal_theme = none;
  font_size = none;
  font_family = none;
}

pub record UserRow : Type 0 where
  pub id : ℕ
  pub username : String
  pub password : String
  pub role : String
  pub token_version : ℕ
  pub preferences : Preferences
  pub created_at : String

-- `user_id` is NULL in rows from before the column was added.
pub record TokenRow : Type 0 where
  pub id : ℕ
  pub token : String
  pub label : String
  pub notes : String
  pub enabled : ℕ
  pub user_id : Option ℕ
  pub created_at : String

pub record AgentRow : Type 0 where
  pub id : String
  pub name : String
  pub os : String
  pub token : String
  pub fingerprint : Option String
  pub online : ℕ
  pub last_seen : Option String
  pub created_at : String

pub record AuditRow : Type 0 where
  pub id : ℕ
  pub ts : String
  pub action : String
  pub user : Option String
  pub detail : Option String

-- The counters are SQLite's AUTOINCREMENT sequences.
pub record Db : Type 0 where
  pub users : List UserRow
  pub agent_tokens : List TokenRow
  pub agents : List AgentRow
  pub audit_log : List AuditRow
  pub next_user : ℕ
  pub next_token : ℕ
  pub next_audit : ℕ

module _ {A : Type 0} where
  -- `SELECT … WHERE test` with `get`.
  unfoldable pub select_first : (A → Bool) → List A → Option A
  select_first p [] = none
  select_first p (r ∷ rs) = if p r then some r else select_first p rs

  unfoldable pub select_all : (A → Bool) → List A → List A
  select_all p [] = []
  select_all p (r ∷ rs) = if p r then r ∷ select_all p rs else select_all p rs

  -- `DELETE … WHERE test`.
  unfoldable pub delete_where : (A → Bool) → List A → List A
  delete_where p [] = []
  delete_where p (r ∷ rs) = if p r then delete_where p rs else r ∷ delete_where p rs

  -- `UPDATE … SET change WHERE test`.
  unfoldable pub update_where : (A → Bool) → (A → A) → List A → List A
  update_where p f [] = []
  update_where p f (r ∷ rs) = if p r then f r ∷ update_where p f rs else r ∷ update_where p f rs

abbrev pub owned_by : ℕ → Option ℕ → Bool
owned_by user none = false
owned_by user (some u) = eqb u user
