-- ===== src/Server/Revoking.antt =====
-- packages/relay/src/index.ts: what is left of a user who was deleted, and of a token that was disabled.
use remote_ttys.Base.{
  ◌&&◌, ℕ, String, Bool, true, false, none, some, List, [], ◌∷◌, All, get, has, eqb, ◌==◌, ◌≡◌,
  refl, subst, sym, inl, inr, Bool-cases,
}
use remote_ttys.Db.{
  Db, UserRow, TokenRow, AgentRow, delete_where, delete_user_rows, delete_user, get_user, tokens_of,
  owned_by, get_agent_token, is_token_owned_by_user,
}
use remote_ttys.Auth.{VerifiedUser, verify_agent_token}
use remote_ttys.Auth.Revocation.{verify_agent_token-set_agent_token_enabled}
use remote_ttys.Relay.{Relay, AgentConnection, BrowserConnection, audit}
use remote_ttys.Relay.AgentHub.{disconnect_agents_by_token}
use remote_ttys.Relay.BrowserHub.{disconnect_browsers_by_user_id}
use remote_ttys.Server.Requests.{Services, WebEnv, Server, Response}
use remote_ttys.Server.Accounts.{
  log, set_db, set_relay, on_remove_user, after_delete, disconnect_agents_by_tokens,
}
use remote_ttys.Server.Tokens.{find_token, on_put_token_enabled, toggle_token}
use remote_ttys.Server.Closing.{
  Closed, disconnect_agents_by_token-Closed, disconnect_agents_by_tokens-Closed,
  disconnect_agents_by_tokens-browsers, disconnect_browsers_by_user_id-Closed,
  disconnect_browsers_by_user_id-keeps,
}
use remote_ttys.Server.Admins.{disconnect_agents_by_tokens-db}

delete_where-All :
    {A : Type 0} (p : A → Bool) (xs : List A) → All (λ x. p x ≡ false) (delete_where p xs)
unfolding delete_where
delete_where-All p [] = tt
delete_where-All p (x ∷ xs) = elim (Bool-cases (p x)) [
  | inl gone ↦ rw (gone, delete_where) (delete_where-All p xs)
  | inr kept ↦ rw (kept, delete_where) (kept, delete_where-All p xs)
]

-- Nothing in the tables is the user's, or is of one of the tokens.
pub record IsForgotten (user : ℕ) (hashes : List String) (d : Db) : Type 0 where
  pub users : All (λ (u : UserRow). eqb u.id user ≡ false) d.users
  pub tokens : All (λ (t : TokenRow). owned_by user t.user_id ≡ false) d.agent_tokens
  pub agents : All (λ (a : AgentRow). has a.token hashes ≡ false) d.agents

delete_user_rows-IsForgotten :
    (row : UserRow) (hashes : List String) (d : Db)
    → IsForgotten row.id hashes (delete_user_rows row hashes d)
unfolding delete_user_rows
delete_user_rows-IsForgotten row hashes d = record {
  users = delete_where-All (λ (u : UserRow). eqb u.id row.id) d.users;
  tokens = delete_where-All (λ (t : TokenRow). owned_by row.id t.user_id) d.agent_tokens;
  agents = delete_where-All (λ (a : AgentRow). has a.token hashes) d.agents;
}

-- The agents of the tokens and the pages of the user, of those that were connected, are closed.
pub record AreClosed (user : ℕ) (hashes : List String) (r r' : Relay) : Type 0 where
  pub agents :
      (k : String) (c : AgentConnection)
      → get k r.agents ≡ some c
      → has c.token hashes ≡ true
      → Closed c.ws r'
  pub browsers :
      (k : String) (c : BrowserConnection)
      → get k r.browsers ≡ some c
      → eqb c.user_id user ≡ true
      → Closed c.ws r'

module _ (v : Services) (e : WebEnv) where
  after_delete-effect :
      (target : String) (actor : VerifiedUser) (user : ℕ) (hashes : List String) (s : Server)
      → IsForgotten user hashes s.relay.db
      → IsForgotten user hashes
          (after_delete v e target actor
            (some (record { user_id = user; token_hashes = hashes }))
            s).1.relay.db
        × AreClosed user hashes s.relay
            (after_delete v e target actor
              (some (record { user_id = user; token_hashes = hashes }))
              s).1.relay
  unfolding after_delete log audit set_relay disconnect_browsers_by_user_id
  after_delete-effect target actor user hashes s forgotten =
      let r1 = disconnect_agents_by_tokens hashes s.relay in
      let same : r1.db ≡ s.relay.db = disconnect_agents_by_tokens-db hashes s.relay in
      let there : IsForgotten user hashes r1.db =
        subst (λ d. IsForgotten user hashes d) (sym same) forgotten in
      (
        record { users = there.users; tokens = there.tokens; agents = there.agents },
        record {
          agents = λ k c found of_token.
              disconnect_browsers_by_user_id-keeps user c.ws r1
                (disconnect_agents_by_tokens-Closed hashes k c s.relay found of_token);
          browsers = λ k c found of_user.
              disconnect_browsers_by_user_id-Closed user k c r1
                (subst (λ m. get k m ≡ some c)
                  (sym (disconnect_agents_by_tokens-browsers hashes s.relay)) found)
                of_user;
        },
      )

  -- If an admin deletes a user who is there, another or one that his web token names by an array and
  -- not a text, the answer is success; afterwards no user has his
  -- id, no token is his and no agent is of one of his tokens, and every connected agent of one of
  -- his tokens and every page of his was closed.
  pub on_remove_user_revokes :
      (target : String) (actor : VerifiedUser) (gone : UserRow) (s : Server)
      → (actor.is_text && target == actor.username) ≡ false
      → get_user target s.relay.db ≡ some gone
      → ((on_remove_user v e target actor s).0 ≡ Response.done)
        × IsForgotten gone.id
            (tokens_of gone.id s.relay.db.agent_tokens)
            (on_remove_user v e target actor s).1.relay.db
        × AreClosed gone.id
            (tokens_of gone.id s.relay.db.agent_tokens)
            s.relay
            (on_remove_user v e target actor s).1.relay
  unfolding on_remove_user delete_user set_db after_delete
  on_remove_user_revokes target actor gone s other there =
      let hashes = tokens_of gone.id s.relay.db.agent_tokens in
      let d = delete_user_rows gone hashes s.relay.db in
      let (forgotten, closed) =
        after_delete-effect target actor gone.id hashes (set_db d s)
          (delete_user_rows-IsForgotten gone hashes s.relay.db) in
      let deleted : delete_user target s.relay.db
          ≡ (some (record { user_id = gone.id; token_hashes = hashes }), d) =
        rw (there, delete_user) refl in
      rw (other, on_remove_user)
        (rw (deleted, after_delete)
          (refl, forgotten, record { agents = closed.agents; browsers = closed.browsers }))

  -- If a user disables a token of his that is there, the answer is success; afterwards the token is
  -- refused, and every connected agent of it was closed.
  pub on_put_token_enabled_revokes :
      (id token : String) (row : TokenRow) (user : VerifiedUser) (s : Server)
      → find_token (v.parse_int id) s.relay.db ≡ some row
      → is_token_owned_by_user row.id user.user_id s.relay.db ≡ true
      → get_agent_token (v.hash_token token) s.relay.db ≡ some row
      → ((on_put_token_enabled v e id (some false) user s).0 ≡ Response.done)
        × (verify_agent_token v.hash_token token
              (on_put_token_enabled v e id (some false) user s).1.relay.db
            ≡ none)
        × ((k : String) (c : AgentConnection)
            → get k s.relay.agents ≡ some c
            → (c.token == row.token) ≡ true
            → Closed c.ws (on_put_token_enabled v e id (some false) user s).1.relay)
  unfolding on_put_token_enabled toggle_token set_db set_relay log audit disconnect_agents_by_token
      verify_agent_token get_agent_token
  on_put_token_enabled_revokes id token row user s found own there =
      rw (found, on_put_token_enabled)
        (rw (own, on_put_token_enabled)
          (
            refl,
            verify_agent_token-set_agent_token_enabled v.hash_token token row s.relay.db there,
            λ k c at of_token. disconnect_agents_by_token-Closed row.token k c s.relay at of_token,
          ))
