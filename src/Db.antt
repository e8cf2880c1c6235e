-- ===== src/Db.antt =====
-- packages/relay/src/db.ts: the tables and the statements on them.
-- A table is the list of its rows in the order of their rowids. `get` is the first row, and
-- `changes` counts what a statement touched. A violated UNIQUE constraint throws: `none`.
-- `datetime` is the text of `datetime('now')` when the statement runs.
mod Rows
mod Users
mod Tokens
mod Agents
mod AuditLog
mod Views
pub mod Administered
pub mod AuditQuery
pub mod Tests
pub use Rows.{Preferences, no_preferences, UserRow, TokenRow, AgentRow, AuditRow, Db, owned_by}
unfoldable pub use Rows.{select_first, select_all, delete_where, update_where}
pub use Users.{tokens_of, DeletedUser, ListedUser, has_users}
unfoldable pub use Users.{
  get_user, create_user, delete_user_rows, delete_user, update_password, get_token_version,
  list_users, get_user_preferences, set_user_preferences,
}
pub use Tokens.{has_agent_tokens}
unfoldable pub use Tokens.{
  get_agent_token, get_agent_token_by_id, create_agent_token, delete_agent_token,
  list_agent_tokens_by_user, is_token_owned_by_user, get_token_owner, is_token_hash_owned_by_user,
  set_agent_token_enabled,
}
unfoldable pub use Agents.{
  find_agent_by_token_and_name, upsert_agent, upsert_row, set_agent_online, delete_agent_from_db,
  is_agent_owned_by_user, reset_all_agents_offline, set_agent_fingerprint, clear_agent_fingerprint,
}
unfoldable pub use AuditLog.{audit}
pub use Views.{UserStats}
unfoldable pub use Views.{
  list_agents_by_user, get_user_stats, sort_agents, join_tokens, tokens_of_user, comes_before,
  insert_sorted, stats_of, distinct_ids,
}
